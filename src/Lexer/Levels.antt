-- ===== src/Lexer/Levels.antt =====
-- lexer.c, LevelStack: one level for each open bracket. A brace that follows a blocky keyword at
-- the same depth opens a statement level, any other bracket an expression level.
use calx.Base.{ℕ, Bool, true, false, Option, none, some, List, [], ◌∷◌, length, ◌==◌, if◌then◌else◌}

pub data Level : Type 0 where
  level_expr level_stmt : Level

-- `levels` (the C field data) has the top first, so that `size` is its length; `blocky_level` is `none` for (size_t) -1.
pub record LevelStack : Type 0 where
  pub levels : List Level
  pub blocky_level : Option ℕ
  pub is_expr_context : Bool

unfoldable pub level_stack_new : LevelStack
level_stack_new = record { levels = []; blocky_level = none; is_expr_context = false }

-- level == LEVEL_EXPR
unfoldable pub is_level_expr : Level → Bool
is_level_expr level_expr = true
is_level_expr level_stmt = false

unfoldable pub level_stack_push : LevelStack → Level → LevelStack
unfolding is_level_expr
level_stack_push s level = record s {
  levels = level ∷ s.levels;
  is_expr_context = is_level_expr level;
}

unfoldable pub level_stack_set_blocky : LevelStack → LevelStack
level_stack_set_blocky s = record s { blocky_level = some (length s.levels) }

-- s->blocky_level == s->size
unfoldable pub at_blocky_level : Option ℕ → ℕ → Bool
at_blocky_level none size = false
at_blocky_level (some n) size = n == size

unfoldable pub level_stack_push_blocky : LevelStack → LevelStack
unfolding level_stack_push at_blocky_level
level_stack_push_blocky s =
    if at_blocky_level s.blocky_level (length s.levels)
    then level_stack_push (record s { blocky_level = none }) level_stmt
    else level_stack_push s level_expr

-- the test of the new top in level_stack_pop: a non-empty stack with an expression level on top
unfoldable pub top_is_expr : List Level → Bool
unfolding is_level_expr
top_is_expr [] = false
top_is_expr (l ∷ ls) = is_level_expr l

-- the body behind the early return of level_stack_pop
unfoldable pub level_stack_drop : LevelStack → List Level → LevelStack
unfolding top_is_expr
level_stack_drop s [] = s
level_stack_drop s (l ∷ ls) = record s { levels = ls; is_expr_context = top_is_expr ls }

unfoldable pub level_stack_pop : LevelStack → LevelStack
unfolding level_stack_drop
level_stack_pop s = level_stack_drop s s.levels
