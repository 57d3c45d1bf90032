-- ===== src/Persistence/Latch.antt =====
-- src/persistence/runtime-persistence-latch.ts: once blocked, blocked for the life of the process.
use multi_venue_grid_engine.Base.{
  ◌≡◌, refl, Bool, true, false, ◌||◌, Option, none, some, List, [], ◌∷◌, ◌++◌, Text, text_eq,
  includes, includes-append, unique, includes-unique, arith, if◌then◌else◌,
}

pub record LatchState : Type 0 where
  pub blocked : Bool
  pub reason_codes : List Text
  pub blocked_at : Option Text

-- `new RuntimePersistenceLatch()`
abbrev pub new_latch : LatchState
new_latch = record { blocked = false; reason_codes = []; blocked_at = none }

-- `block(reasonCodes, blockedAt)`; the default of `blockedAt` is the caller's clock.
unfoldable pub block : LatchState → List Text → Text → LatchState
unfolding unique
block l codes at =
    if l.blocked
    then record l { reason_codes = unique (l.reason_codes ++ codes) }
    else record { blocked = true; reason_codes = unique codes; blocked_at = some at }

-- One call of `block`.
abbrev pub BlockCall : Type 0
BlockCall = List Text × Text

unfoldable pub block_all : LatchState → List BlockCall → LatchState
unfolding block
block_all l [] = l
block_all l ((codes, at) ∷ calls) = block_all (block l codes at) calls

pub any_call_includes : List BlockCall → Text → Bool
any_call_includes [] c = false
any_call_includes ((codes, at) ∷ calls) c = includes codes c || any_call_includes calls c

block_blocked : (l : LatchState) (codes : List Text) (at : Text) → (block l codes at).blocked ≡ true
unfolding block
block_blocked l codes at = ground arith

-- On a latch that is blocked every later sequence of calls keeps the block, the time of the first
-- block and all the reasons recorded, and it adds exactly the reasons of those calls.
pub block_all-keeps :
    (l : LatchState) (calls : List BlockCall)
    → l.blocked ≡ true
    → ((block_all l calls).blocked ≡ true)
      × ((block_all l calls).blocked_at ≡ l.blocked_at)
      × ((c : Text)
          → includes (block_all l calls).reason_codes c
            ≡ (includes l.reason_codes c || any_call_includes calls c))
unfolding block_all any_call_includes
block_all-keeps l [] h = (h, refl, λ c. ground arith)
block_all-keeps l ((codes, at) ∷ calls) h =
    let (stays, time, reasons) =
      block_all-keeps (block l codes at) calls (block_blocked l codes at) in
    (
      stays,
      rw time (ground arith),
      λ c.
          rw
            (
              reasons c,
              h,
              includes-unique (l.reason_codes ++ codes) c,
              includes-append l.reason_codes codes c,
            )
            (ground arith),
    )
