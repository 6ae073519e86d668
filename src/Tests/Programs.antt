-- ===== src/Tests/Programs.antt =====
-- The parser at concrete sources.
use calx.Base.{
  zero, suc, ◌<◌, ◌+◌, get_elem?, ℕ, ◌≡◌, ◌≢◌, refl, Bool, true, false, Option, none, some, List,
  [], ◌∷◌, codes, ◌||◌, arith,
}
use calx.Lexer.Kinds.{kind_index, LexemeKind}
use calx.Lexer.Levels.{level_stack_push_blocky, level_stack_pop, level_stack_set_blocky}
use calx.Lexer.Scan.{keyword_lookup, identifier_loop, choice1223, number_loop}
use calx.Lexer.Token.{lexer_next, lexer_new, dispatch}
use calx.Number.Text.Parse.{number_parse}
use calx.Str.Defs.{hash_str, hash_str_concat}
use calx.Xht.Defs.{
  xht_size, xht_new, xht_get, find_index, xht_put, link_new, grow_buckets, lookup, bucket_of,
  first_of, value_or,
}
use calx.Parser.Functions.Arity.{with_params, succeeds, do_call_coerce-with_params}
use calx.Vm.Call.{do_call_coerce}
use calx.Vm.Values.{str, nil}
use calx.Str.Defs.{string_new}
use calx.Parser.Fuel.Programs.{parse-ends}
use calx.Parser.Jump.{fixup_jump, is_jump}
use calx.Parser.Jump.Landing.{Lands, fixup_jump-Lands}
use calx.Parser.Main.{parse, to_chunk, ParseResult, compiled, failed, no_result, out_of_fuel}
use calx.Parser.Main.Lines.{quark_line, last_line, to_chunk-last_line}
use calx.Parser.Resolve.{Depth, resolve_range}
use calx.Parser.Resolve.Symbols.{is_symbolic, symbolic, known, resolve_range-still_symbolic}
use calx.Parser.Rotate.{ti_rotate_left}
use calx.Parser.Rotate.Swap.{ti_rotate_left-exchange}
use calx.Parser.State.{
  ◌>>=◌, pure, gets, modify, at, Parser, TaggedInstr, parsed, parser_new, plain,
}
use calx.Tests.Decimal.{decimal}
use calx.Tests.Machine.{some_state}
use calx.Vm.State.{
  state_intern_global, Chunk, Instr, Opcode, op_load_const, op_print, op_jump, op_return,
  op_load_symbolic,
}
use calx.Vm.Trace.{find_quark}

abbrev last_code : List Chunk → List Instr
last_code [] = []
last_code (c ∷ []) = c.code
last_code (c ∷ d ∷ chunks) = last_code (d ∷ chunks)

abbrev code_of : ParseResult → List Instr
code_of (compiled s f) = last_code s.chunks
code_of (failed s e) = []
code_of no_result = []
code_of out_of_fuel = []

abbrev any_symbolic : List Instr → Bool
any_symbolic [] = false
any_symbolic (i ∷ code) = is_symbolic i.opcode || any_symbolic code

-- A function in a `for` loop with a last part: identifiers behind it stay unresolved.
unresolved_in_for :
    any_symbolic (code_of (parse decimal 64 some_state (codes "for(;;i=1){fun f(){}}\n"))) ≡ true
unfolding parse ◌>>=◌ pure gets modify at lexer_next lexer_new kind_index dispatch keyword_lookup
    identifier_loop choice1223 number_loop level_stack_push_blocky level_stack_pop
    level_stack_set_blocky xht_size xht_new xht_get find_index state_intern_global xht_put link_new
    grow_buckets lookup hash_str hash_str_concat bucket_of first_of value_or number_parse
unresolved_in_for = refl

-- Without the last part they are resolved.
resolved_in_for :
    any_symbolic (code_of (parse decimal 64 some_state (codes "for(;;){i=1;fun f(){}}\n"))) ≡ false
unfolding parse ◌>>=◌ pure gets modify at lexer_next lexer_new kind_index dispatch keyword_lookup
    identifier_loop choice1223 number_loop level_stack_push_blocky level_stack_pop
    level_stack_set_blocky xht_size xht_new xht_get find_index state_intern_global xht_put link_new
    grow_buckets lookup hash_str hash_str_concat bucket_of first_of value_or number_parse
resolved_in_for = refl

parse-ends_example : parse decimal 64 some_state (codes "while (x) { x -= 1; }\n") ≢ out_of_fuel
parse-ends_example = parse-ends decimal 64 some_state (codes "while (x) { x -= 1; }\n")

abbrev at_line : Opcode → Option ℕ → TaggedInstr
at_line op line = record { instr = plain op; line = line }

ti_rotate_left-exchange_example :
    ti_rotate_left {A = ℕ} 1 3 1 (1 ∷ 2 ∷ 3 ∷ 4 ∷ 5 ∷ []) ≡ 1 ∷ 3 ∷ 4 ∷ 2 ∷ 5 ∷ []
ti_rotate_left-exchange_example = ti_rotate_left-exchange (1 ∷ []) (2 ∷ []) (3 ∷ 4 ∷ []) (5 ∷ [])

-- two lines, and instructions that belong to none
abbrev some_parser : Parser
some_parser = record (parser_new (codes "") some_state) {
  prog =
      at_line op_load_const (some 1)
      ∷ at_line op_jump none
      ∷ at_line op_print (some 2)
      ∷ at_line op_return none
      ∷ [];
}

to_chunk-last_line_example :
    quark_line (to_chunk some_parser).quarks (find_quark 3 (to_chunk some_parser).quarks)
    ≡ last_line none some_parser.prog 3
to_chunk-last_line_example = to_chunk-last_line some_parser 3

fixup_jump-Lands_example :
    (p : Parser) × (fixup_jump 1 0 some_parser ≡ parsed tt p)
    × Lands 1 0 (at_line op_jump none) some_parser p
fixup_jump-Lands_example =
    fixup_jump-Lands some_parser 1 0 (at_line op_jump none) refl (unfold is_jump in refl)
      (omega arith) (omega arith)

-- behind `a` in a source
abbrev behind_name : Parser
behind_name = record (parser_new (codes "+b*c") some_state) {
  cur = record { kind = LexemeKind.lk_ident; start = 0; size = 0; line = 1; column = 1 };
}

do_call_coerce-with_params_example :
    succeeds (
      do_call_coerce some_state
        (str (string_new []) ∷ nil ∷ [])
        (with_params 2 true).nargs_encoded
        1)
    ≡ false
do_call_coerce-with_params_example =
    do_call_coerce-with_params some_state 2 true (str (string_new []) ∷ []) (nil ∷ []) (omega arith)

-- a range that loads an identifier and prints it
abbrev unresolved : Parser
unresolved = record (parser_new (codes "") some_state) {
  prog = at_line op_load_symbolic (some 1) ∷ at_line op_print (some 1) ∷ [];
  idents = codes "x" ∷ [];
}

unresolved-known :
    (i : ℕ) → i < 2 → known unresolved.idents (get_elem? unresolved.prog (0 + i)) ≡ true
unresolved-known zero h = refl
unresolved-known (suc zero) h = refl
unresolved-known (suc (suc i)) h = absurd (omega arith)

resolve_range-still_symbolic_example :
    (d : Depth) × (p : Parser) × (resolve_range
        (xht_new 0)
        2
        0
        (record { curstack = 0; maxstack = 0 })
        unresolved
      ≡ parsed d p)
    × (symbolic (get_elem? p.prog 0) ≡ false)
resolve_range-still_symbolic_example =
    resolve_range-still_symbolic (xht_new 0) 2 0 0 (record { curstack = 0; maxstack = 0 })
      unresolved unresolved-known
