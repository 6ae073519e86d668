-- ===== src/Parser/Fuel/Priority.antt =====
-- parse.c: `expr` with a least priority, from the parser it is called in.
use calx.Base.{ℕ, ◌≤◌}
use calx.Number.Deci.{Deci}
use calx.Parser.Fuel.Rules.{measure}
use calx.Parser.Fuel.Rounds.{Stopped}
use calx.Parser.State.{Parser}

-- an expression, when it is there, ends at a lexeme that stops a priority, with no more lexemes to come
abbrev pub Stops : ℕ → Parser → Unit {0} → Parser → Type 0
Stops q p a p' = Stopped q p'.cur.kind × (measure p' ≤ measure p)
