-- ===== src/Parser/Main.antt =====
-- parse.c: to_chunk and parse.
pub mod Lines
use calx.Base.{
  ℕ, zero, suc, ◌+◌, ◌*◌, Option, none, some, List, [], ◌∷◌, ◌++◌, Bytes, Bool, false, map, length,
  ◌==◌, if◌then◌else◌,
}
use calx.Number.Deci.{Deci}
use calx.Parser.Functions.{fun_begin, fun_end}
use calx.Parser.State.{
  cur_lexeme, TaggedInstr, Parser, ParseError, Parse, parsed, thrown, undefined, exhausted, M,
  ◌>>=◌, ◌>>◌, pure, parser_new, throw_error_at, advance,
}
use calx.Parser.Stmt.{stmt}
use calx.Parser.Params.{at_eof, at_rbrace, goes_on, end_of, by_end}
use calx.Vm.State.{Quark, Chunk, State, func_object, alloc}

-- `cur_line` is the line of the last quark, or `none`; `i` is the index of the instruction
unfoldable pub same_line : Option ℕ → ℕ → Bool
same_line none line = false
same_line (some cur_line) line = cur_line == line

-- a quark for the instruction at index i, if its line is another than that of the last quark; `again`
-- is the rest of the loop
unfoldable pub add_quark : ℕ → Option ℕ → Option ℕ → (Option ℕ → List Quark) → List Quark
unfolding same_line
add_quark i cur_line none again = again cur_line
add_quark i cur_line (some line) again =
    if same_line cur_line line
    then again cur_line
    else (record { instr = i; line = line }) ∷ again (some line)

unfoldable pub quarks_loop : ℕ → Option ℕ → List TaggedInstr → List Quark
unfolding add_quark
quarks_loop i cur_line [] = []
quarks_loop i cur_line (ti ∷ prog) =
    add_quark i cur_line ti.line (λ cur_line'. quarks_loop (suc i) cur_line' prog)

unfoldable pub to_chunk : Parser → Chunk
unfolding quarks_loop
to_chunk p = record {
  code = map (λ (ti : TaggedInstr). ti.instr) p.prog;
  consts = p.consts;
  quarks = quarks_loop 0 none p.prog;
  shapes = p.shapes;
}

-- chunk_new_steal and mk_func: the function of the first instruction of a new chunk
unfoldable pub mk_func : State → Chunk → State × ℕ
unfolding alloc
mk_func state chunk =
    alloc (record state { chunks = state.chunks ++ chunk ∷ [] })
      (func_object (length state.chunks) 0)

unfoldable pub parse_loop : Deci → ℕ → ℕ → ℕ → M (Unit {0})
unfolding stmt cur_lexeme end_of by_end throw_error_at
parse_loop d bits fuel zero p = exhausted
parse_loop d bits fuel (suc rounds) p =
    (do
      stmt d bits fuel
      cur ← cur_lexeme
      by_end (end_of cur.kind) (pure tt) (throw_error_at "extra '}'" cur)
          (parse_loop d bits fuel rounds))
      p

-- the program as a function, up to its chunk
unfoldable pub parse_program : Deci → ℕ → ℕ → M (Unit {0})
unfolding fun_begin advance parse_loop fun_end
parse_program d bits fuel = do
  fun_pos ← fun_begin
  advance
  parse_loop d bits fuel fuel
  fun_end fun_pos

-- the state of the machine, and the function or the error
pub data ParseResult : Type 0 where
  compiled : State → ℕ → ParseResult
  failed : State → ParseError → ParseResult
  no_result out_of_fuel : ParseResult

unfoldable pub finish_parse : Parse (Unit {0}) → ParseResult
unfolding to_chunk mk_func
finish_parse (parsed u p) = let (state, func) = mk_func p.state (to_chunk p) in compiled state func
finish_parse (thrown e state) = failed state e
finish_parse undefined = no_result
finish_parse exhausted = out_of_fuel

-- Each round and each level of nesting takes a lexeme: there are 2 n + 2 of them at most for n bytes.
unfoldable pub parse : Deci → ℕ → State → Bytes → ParseResult
unfolding parse_program parser_new finish_parse
parse d bits state source =
    finish_parse (parse_program d bits (2 * length source + 3) (parser_new source state))
