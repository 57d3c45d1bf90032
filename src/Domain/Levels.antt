-- ===== src/Domain/Levels.antt =====
-- src/domain/ids.ts and src/strategy/geometry.ts: the ten logical levels and their exit targets.
use multi_venue_grid_engine.Base.{
  ℕ, Bool, false, List, [], ◌∷◌, map, Text, text, text_eq, nat_eq, includes, ◌==◌, if◌then◌else◌,
}

pub data Side : Type 0 where
  buy sell : Side

pub data GridLogicalLevelId : Type 0 where
  b1 b2 b3 b4 b5 s1 s2 s3 s4 s5 : GridLogicalLevelId

pub data ExitTarget : Type 0 where
  anchor : ExitTarget
  level : GridLogicalLevelId → ExitTarget

abbrev pub all_levels : List GridLogicalLevelId
all_levels = b1 ∷ b2 ∷ b3 ∷ b4 ∷ b5 ∷ s1 ∷ s2 ∷ s3 ∷ s4 ∷ s5 ∷ []

-- The string that stands for a level.
abbrev pub level_text : GridLogicalLevelId → Text
level_text b1 = text "B1"
level_text b2 = text "B2"
level_text b3 = text "B3"
level_text b4 = text "B4"
level_text b5 = text "B5"
level_text s1 = text "S1"
level_text s2 = text "S2"
level_text s3 = text "S3"
level_text s4 = text "S4"
level_text s5 = text "S5"

unfoldable pub is_grid_logical_level_id : Text → Bool
is_grid_logical_level_id value = includes (map level_text all_levels) value

-- `levelIndex`: the number behind the letter.
unfoldable pub level_index : GridLogicalLevelId → ℕ
level_index b1 = 1
level_index b2 = 2
level_index b3 = 3
level_index b4 = 4
level_index b5 = 5
level_index s1 = 1
level_index s2 = 2
level_index s3 = 3
level_index s4 = 4
level_index s5 = 5

unfoldable pub exit_target : GridLogicalLevelId → ExitTarget
exit_target b1 = anchor
exit_target b2 = level b1
exit_target b3 = level b2
exit_target b4 = level b3
exit_target b5 = level b4
exit_target s1 = anchor
exit_target s2 = level s1
exit_target s3 = level s2
exit_target s4 = level s3
exit_target s5 = level s4

starts_with : ℕ → Text → Bool
starts_with c [] = false
starts_with c (d ∷ _) = d == c

-- The side of the entry order, `startsWith("B") ? "BUY" : "SELL"` in `theoreticalGrid`.
unfoldable pub entry_side : GridLogicalLevelId → Side
unfolding starts_with
entry_side l = if starts_with b'B' (level_text l) then buy else sell

-- `oppositeSide`, the side of the exit order.
unfoldable pub opposite_side : GridLogicalLevelId → Side
unfolding starts_with
opposite_side l = if starts_with b'S' (level_text l) then buy else sell
