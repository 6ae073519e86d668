-- ===== src/Lib.antt =====
-- calx is a small scripting language with decimal numbers of any precision. lexer.c turns a source
-- into lexemes; parse.c compiles them to instructions of vm.c; a value of the machine is a number
-- (number.c, on the word arithmetic of libdeci), a string (str.c), a list, a dict (dict.c, on the
-- hash table of xht.c) or a function.
--
-- The parts and their files:
--   Ntp      ntp.c, ntp.h: the precision of quotients, in words and digits.
--   Lexer    lexer.c, lexer.h. Levels is LevelStack; Scan has the loops of `number`, `string`,
--            `identifier` and choice1223; Token has the lexer's state, `token` and `lexer_next`.
--            Bounds, Next and Loop are about where lexemes end; Context is about the level stack.
--   Literal  how vm.c prints a string escaped (Write) and parse.c reads a literal (Read).
--   Parser   parse.c, parse.h: the parser, which emits the code. State has its state and errors; Scope,
--            Resolve and Functions have local variables, close_scope and the shapes of functions;
--            Operators, Operands, Calls and Expr are expressions; Rotate and Jump are about jumps;
--            Assign, Params and Stmt are statements; Main has to_chunk and parse. Fuel is about the
--            lexemes that are taken.
--   Number   number.c, number.h. Deci is the interface of libdeci, Defs the number and its copies;
--            Add has addition and subtraction; Convert the conversions and the bit operations;
--            Compare the order; Text parses and prints; Round rounds and counts digits. Fancy
--            is fancy.c, over the interface Spans of the libraries for long spans; Mul has products
--            and powers; Div has quotients and remainders; Scale scales by powers of
--            ten; Radix parses and prints in other bases.
--   Vm       vm.c, vm.h: Values and their kinds; Aop has perform_aop and its like; Elements reads and
--            finds the elements of lists and dicts (list.h, dict.c, dict.h); State is State and
--            RuntimeInfo; Call has do_call and OP_RETURN; Step has the instructions of state_eval.
--            Arithmetic and Frames are about perform_aop, and about calls and returns. Trace has
--            find_quark and the stack trace.
--   TextManip text_manip.c: the lines of a text.
--   Xht      xht.c, xht.h: the hash table's items, chains and buckets.
--   Str      str.c, str.h, hash.h: strings with their hash.
--   Base     lists, Boolean tests, bytes and integers that the parts share.
--   Tests    the properties at concrete inputs; Tests.Decimal and Tests.Spans are an
--            instance of libdeci and its companions.
--
-- Sources are lists of bytes, a cursor is an offset into them, and a span of words is a list with
-- the least significant word first. Function names are those of the source.
--
-- Fuel: `next_loop` has one round for each byte that is left and one more, since each round that
-- goes on passes a byte. `push_words` has 65 rounds, since a size_t has 64 bits and a round divides
-- by ten at least. `read_loop` has one round more than the literal has bytes. `ctz_fuel` has as
-- many rounds as its argument. A walk along a chain of the hash table has one step more than the
-- table has items. `grow_capacity` doubles 64 times at most, for sizes of up to half a size_t.
--
-- `top_bit` and `pow_loop` have 64 rounds, one for each bit of a size_t. `run` is given the number of
-- steps of the machine. `quark_loop` has one round more than there are quarks.
-- `int_digits` has one round more than the value of the words, which each round makes smaller, and
-- `digits_per_word` has four rounds for each decimal digit of a word.
--
-- `parse` has twice as many rounds and levels of nesting as the source has bytes, and three more: a
-- lexeme that is taken makes fewer lexemes to come, and each round of a loop and each level of nesting
-- takes one. In `resolve_range` there are as many rounds as the range has instructions, and in
-- `end_fixup_loop` one more than there are marks.
--
-- The parser is a state monad: a result with the parser, an error with the state of the machine
-- (longjmp), an access out of bounds, or the end of the fuel. Priorities are counted from 0, where the
-- code has -1 for a whole expression. Sizes and the positions of jumps are words of 64 bits.
--
-- In the machine an address is an index into the objects, and an address or a place that does not
-- exist is an outcome of its own, as is the end of the program. Native functions are a parameter: they
-- take the state and the arguments, and give the state and a value or an error.
--
-- README.md says that `ceil` rounds away from zero. For negative numbers the code rounds towards zero, and
-- so does the model.
--
-- Not modelled: want of memory, after which the program ends (with it the saturation of sizes), the
-- release of objects except for the reference count that decides whether an operand of number.c is
-- changed in place, and libdeci itself, a git submodule: its operations on spans are a parameter,
-- with the laws that its documentation states.
mod Base
pub mod Ntp
pub mod Lexer
pub mod Literal
pub mod Parser
pub mod Number
mod Tests
pub mod Xht
pub mod Vm
pub mod Str
pub mod TextManip
