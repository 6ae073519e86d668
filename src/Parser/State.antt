-- ===== src/Parser/State.antt =====
-- parse.c: the parser's state and its first operations. The stacks are lists with the top first;
-- an error ends the parse and leaves the state of the machine. `undefined` is an access out of bounds
-- or a failed assertion.
use Prim.Native.String.{String}
use calx.Base.{
  ℕ, ◌-◌, ◌^◌, Bool, false, Option, none, some, List, [], ◌∷◌, ◌++◌, Bytes, get_elem?, length, take,
  drop, ◌==◌, if◌then◌else◌,
}
use calx.Lexer.Kinds.{LexemeKind, Lexeme, same_kind}
use calx.Lexer.Token.{
  ErrorMsg, unterminated_string_eof, unterminated_string_eol, unexpected_symbol, Lexer, lexer_new,
  lexer_next,
}
use calx.Vm.State.{Opcode, op_load_symbolic, Instr, Shape, State}
use calx.Vm.Values.{Value}
use calx.Xht.Defs.{Xht}

-- `line` is `none` for (size_t) -1
pub record TaggedInstr : Type 0 where
  pub instr : Instr
  pub line : Option ℕ

-- what stands on a stack: -1, -2, or the position of a jump
pub data Mark : Type 0 where
  bottom segment : Mark
  jump_at : ℕ → Mark

pub data StackName : Type 0 where
  s_if s_break s_continue : StackName

pub record Stacks : Type 0 where
  pub of_if : List Mark
  pub of_break : List Mark
  pub of_continue : List Mark

pub record Range : Type 0 where
  pub scope_index : ℕ
  pub begin : ℕ
  pub end : ℕ

-- `source` is what the pointers of lexemes point into; an identifier is given by its text
pub record Parser : Type 0 where
  pub source : Bytes
  pub lexer : Lexer
  pub state : State
  pub cur : Lexeme
  pub prog : List TaggedInstr
  pub consts : List Value
  pub shapes : List Shape
  pub scopes : List (Xht ℕ)
  pub ranges : List Range
  pub idents : List Bytes
  pub stacks : Stacks

-- `size` is `none` for (size_t) -1; without a place, line and column are 0
pub record ParseError : Type 0 where
  pub line : ℕ
  pub column : ℕ
  pub size : Option ℕ
  pub msg : String
  pub need_more : Bool

pub data Parse (A : Type 0) : Type 0 where
  parsed : A → Parser → Parse A
  thrown : ParseError → State → Parse A
  undefined : Parse A
  -- the fuel ran out
  exhausted : Parse A

abbrev pub M : Type 0 → Type 0
M A = Parser → Parse A

abbrev pub then_parse : {A B : Type 0} → Parse A → (A → M B) → Parse B
then_parse (parsed a p) f = f a p
then_parse (thrown e s) f = thrown e s
then_parse undefined f = undefined
then_parse exhausted f = exhausted

infixl 5 ◌>>=◌ ◌>>◌
unfoldable pub ◌>>=◌ : {A B : Type 0} → M A → (A → M B) → M B
◌>>=◌ m f p = then_parse (m p) f

abbrev pub ◌>>◌ : {B : Type 0} → M (Unit {0}) → M B → M B
m >> k = m >>= λ _. k

unfoldable pub pure : {A : Type 0} → A → M A
pure a p = parsed a p

unfoldable pub gets : {A : Type 0} → (Parser → A) → M A
gets f p = parsed (f p) p

unfoldable pub modify : (Parser → Parser) → M (Unit {0})
modify f p = parsed tt (f p)

-- what a place out of range gives
unfoldable pub at : {A : Type 0} → Option A → M A
at none p = undefined
at (some a) p = parsed a p

abbrev pub uint32_max : ℕ
uint32_max = 2 ^ 32 - 1

unfoldable pub parser_new : Bytes → State → Parser
parser_new source state = record {
  source = source;
  lexer = lexer_new source;
  state = state;
  cur = record { kind = LexemeKind.lk_and; start = 0; size = 0; line = 0; column = 0 };
  prog = [];
  consts = [];
  shapes = [];
  scopes = [];
  ranges = [];
  idents = [];
  stacks = record { of_if = []; of_break = []; of_continue = [] };
}

unfoldable pub stack_of : StackName → Stacks → List Mark
stack_of s_if s = s.of_if
stack_of s_break s = s.of_break
stack_of s_continue s = s.of_continue

unfoldable pub with_stack : StackName → Stacks → List Mark → Stacks
with_stack s_if s marks = record s { of_if = marks }
with_stack s_break s marks = record s { of_break = marks }
with_stack s_continue s marks = record s { of_continue = marks }

unfoldable pub stack_push : StackName → Mark → M (Unit {0})
unfolding stack_of with_stack
stack_push name v =
    modify λ p. record p { stacks = with_stack name p.stacks (v ∷ stack_of name p.stacks) }

unfoldable pub stack_peek : StackName → M Mark
unfolding stack_of
stack_peek name p = elim (stack_of name p.stacks) [ [] ↦ undefined | v ∷ marks ↦ parsed v p ]

unfoldable pub stack_pop : StackName → M Mark
unfolding stack_of with_stack
stack_pop name p = elim (stack_of name p.stacks) [
  | [] ↦ undefined
  | v ∷ marks ↦ parsed v (record p { stacks = with_stack name p.stacks marks })
]

unfoldable pub throw_error : {A : Type 0} → String → M A
throw_error msg p =
    thrown (record { line = 0; column = 0; size = none; msg = msg; need_more = false }) p.state

unfoldable pub throw_error_at : {A : Type 0} → String → Lexeme → M A
throw_error_at msg l p =
    let e : ParseError = record {
      line = l.line;
      column = l.column;
      size = some l.size;
      msg = msg;
      need_more = same_kind l.kind LexemeKind.lk_eof;
    } in
    thrown e p.state

unfoldable pub throw_error_precise : {A : Type 0} → String → ℕ → ℕ → ℕ → M A
throw_error_precise msg line column size p =
    let e : ParseError = record {
      line = line;
      column = column;
      size = some size;
      msg = msg;
      need_more = false;
    } in
    thrown e p.state

-- the index of a new element, for which 32 bits must be enough
unfoldable pub index_or_throw : ℕ → String → M ℕ
unfolding throw_error
index_or_throw i msg = if i == uint32_max then throw_error msg else pure i

abbrev pub no_shape : Shape
no_shape = record { nargs_encoded = 0; nlocals = 0; offset = 0; maxstack = 0 }

unfoldable pub add_shape : M ℕ
unfolding index_or_throw
add_shape = do
  n ← gets (λ p. length p.shapes)
  i ← index_or_throw n "too many functions"
  modify (λ p. record p { shapes = p.shapes ++ no_shape ∷ [] })
  pure i

unfoldable pub add_const_steal : Value → M ℕ
unfolding index_or_throw
add_const_steal v = do
  n ← gets (λ p. length p.consts)
  i ← index_or_throw n "too many constants"
  modify (λ p. record p { consts = p.consts ++ v ∷ [] })
  pure i

unfoldable pub push_range : Range → M (Unit {0})
push_range v = modify λ p. record p { ranges = v ∷ p.ranges }

unfoldable pub emit_at_line : Instr → Option ℕ → M (Unit {0})
emit_at_line instr line =
    modify λ p. record p { prog = p.prog ++ (record { instr = instr; line = line }) ∷ [] }

unfoldable pub unemit : M Instr
unemit = do
  n ← gets (λ p. length p.prog - 1)
  ti ← gets (λ p. get_elem? p.prog n) >>= at
  modify (λ p. record p { prog = take n p.prog })
  pure ti.instr

unfoldable pub emit : Instr → M (Unit {0})
unfolding emit_at_line
emit instr = emit_at_line instr none

unfoldable pub emit_at : Instr → Lexeme → M (Unit {0})
unfolding emit_at_line
emit_at instr l = emit_at_line instr (some l.line)

unfoldable pub error_text : Option ErrorMsg → String
error_text none = ""
error_text (some unterminated_string_eof) = "unterminated string (EOF reached)"
error_text (some unterminated_string_eol) = "unterminated string (EOL reached)"
error_text (some unexpected_symbol) = "unexpected symbol"

-- the lexeme that comes next is an error or becomes the current one
unfoldable pub take_lexeme : Lexeme × Lexer → M (Unit {0})
unfolding throw_error_at error_text
take_lexeme r p =
    let p' = record p { lexer = r.1; cur = r.0 } in
    if same_kind r.0.kind LexemeKind.lk_error
    then throw_error_at (error_text r.1.err_msg) r.0 p'
    else parsed tt p'

unfoldable pub take_next : Option (Lexeme × Lexer) → M (Unit {0})
unfolding take_lexeme
take_next none p = exhausted
take_next (some r) p = take_lexeme r p

unfoldable pub advance : M (Unit {0})
unfolding take_next
advance p = take_next (lexer_next p.lexer) p

unfoldable pub cur_lexeme : M Lexeme
cur_lexeme = gets λ p. p.cur

unfoldable pub slurp : LexemeKind → String → M (Unit {0})
unfolding throw_error_at advance
slurp k err_msg = do
  cur ← cur_lexeme
  (if same_kind cur.kind k then advance else throw_error_at err_msg cur)

unfoldable pub here : M ℕ
here = gets λ p. length p.prog

-- the text of a lexeme
abbrev pub text : Parser → Lexeme → Bytes
text p l = take l.size (drop l.start p.source)

abbrev pub with_arg : Opcode → ℕ → Instr
with_arg op c = record { opcode = op; a = 0; c = c }

abbrev pub plain : Opcode → Instr
plain op = with_arg op 0

unfoldable pub load : Lexeme → M Instr
unfolding index_or_throw
load ident = do
  n ← gets (λ p. length p.idents)
  i ← index_or_throw n "too many identifiers"
  modify (λ p. record p { idents = p.idents ++ text p ident ∷ [] })
  pure (with_arg op_load_symbolic i)
