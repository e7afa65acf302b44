-- ===== src/Sandbox/Ledger.antt =====
-- The points of the users against the ledger of points, write by write.
pub mod Steps
pub mod Handlers
pub mod Balance
use rule_arena.Common.{
  ℕ, zero, suc, ◌≡◌, refl, Option, some, List, [], ◌∷◌, ◌++◌, get_elem?, set, String,
}
use rule_arena.Common.Int.{ℤ, pos, ◌+ℤ◌, ◌-ℤ◌, int_laws, parts_of_eq}
use rule_arena.Common.Sums.{sum_by, sum_by-append_one, sum_by-set_eq}
use rule_arena.Common.Json.{Fields}
use rule_arena.Sandbox.Models.{
  AggregateType, BusinessEventType, EntryType, PointsLedgerEntry, RunSpace, TestUser,
}
use rule_arena.Sandbox.Rows.{add_entry, add_user, emit, put_user}

abbrev pub points_of : TestUser → ℤ
points_of user = user.points_balance

abbrev pub entered : PointsLedgerEntry → ℤ
entered entry = entry.amount

-- The users have so many points more than the ledger accounts for.
pub record IsOff (run : RunSpace) (gap : ℤ) : Type 0 where
  pub off : sum_by points_of run.users ≡ sum_by entered run.points_ledger +ℤ gap

-- The points of the users are the sum of the ledger.
abbrev pub IsBalanced : RunSpace → Type 0
IsBalanced run = IsOff run (pos 0)

pub get_elem?-set :
    {A : Type 0} (xs : List A) (i : ℕ) (v : A) {x : A}
    → get_elem? xs i ≡ some x
    → get_elem? (set xs i v) i ≡ some v
get_elem?-set [] i v h = cc
get_elem?-set (x ∷ xs) zero v h = refl
get_elem?-set (x ∷ xs) (suc i) v h = get_elem?-set xs i v h

-- A write to other tables.
pub other-IsOff :
    {run after : RunSpace} {gap : ℤ}
    → after.users ≡ run.users
    → after.points_ledger ≡ run.points_ledger
    → IsOff run gap
    → IsOff after gap
other-IsOff users ledger h = record { off = rw (users, ledger) h.off }

pub emit-IsOff :
    {run : RunSpace} {gap : ℤ} (aggregate : AggregateType) (name : String)
    (type : BusinessEventType) (payload : Fields) (key : String)
    → IsOff run gap
    → IsOff (emit aggregate name type payload key run) gap
unfolding emit
emit-IsOff aggregate name type payload key h = record { off = h.off }

pub put_user-IsOff :
    {run : RunSpace} {gap : ℤ} (gap' : ℤ) (i : ℕ) (row : TestUser) {old : TestUser}
    → get_elem? run.users i ≡ some old
    → row.points_balance +ℤ gap ≡ old.points_balance +ℤ gap'
    → IsOff run gap
    → IsOff (put_user i row run) gap'
put_user-IsOff {run} gap' i row found change h =
    let moved = sum_by-set_eq points_of run.users i row found in
    record { off = omega (int_laws, parts_of_eq moved, parts_of_eq change, parts_of_eq h.off) }

pub add_user-IsOff :
    {run : RunSpace} {gap : ℤ} (row : TestUser)
    → row.points_balance ≡ pos 0
    → IsOff run gap
    → IsOff (add_user row run) gap
add_user-IsOff {run} row none_yet h =
    let grown = sum_by-append_one points_of run.users row in
    record { off = omega (int_laws, parts_of_eq grown, parts_of_eq none_yet, parts_of_eq h.off) }

pub add_entry-IsOff :
    {run : RunSpace} {gap : ℤ} (gap' : ℤ) (user_id : String) (order_id : Option String)
    (kind : EntryType) (amount : ℤ) (key : String)
    → amount +ℤ gap' ≡ gap
    → IsOff run gap
    → IsOff (add_entry user_id order_id kind amount key run) gap'
add_entry-IsOff {run} gap' user_id order_id kind amount key change h =
    let grown = sum_by-append_one entered run.points_ledger (record {
      user_id = user_id;
      order_id = order_id;
      entry_type = kind;
      amount = amount;
      idempotency_key = key;
    }) in
    record { off = omega (int_laws, parts_of_eq grown, parts_of_eq change, parts_of_eq h.off) }
