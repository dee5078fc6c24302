-- ===== src/Mux/Answers.antt =====
-- src/usb/mux.rs: the answers to the calls of `connect`. Calls are told apart by
-- their number; what is counted is a call that waits in a connection and the answers to it.
use netmuxd.Base.{
  ℕ, ◌+◌, ◌≡◌, refl, ap, List, [], ◌∷◌, ◌++◌, Option, some, none, arith, ◌==◌, case_option,
  if◌then◌else◌, Bool-cases, inl, inr, ==_iff, subst,
}
use netmuxd.Base.Dict.{get, insert, remove, get-remove}
use netmuxd.Mux.Wire.{Io}
use netmuxd.Mux.Connection.{Connection}
use netmuxd.Mux.Incoming.{Mux, reply}

-- One if the call waits there, zero otherwise.
abbrev pub pending : ℕ → Option ℕ → ℕ
pending id none = 0
pending id (some j) = if j == id then 1 else 0

abbrev pub waiting : ℕ → List (ℕ × Connection) → ℕ
waiting id [] = 0
waiting id ((k, c) ∷ m) = pending id c.connect_reply + waiting id m

abbrev pub answered : ℕ → List (ℕ × Io (Unit {0})) → ℕ
answered id [] = 0
answered id ((j, r) ∷ rs) = (if j == id then 1 else 0) + answered id rs

-- How often the call has a place: as one that waits, or as one that was answered.
abbrev pub tally : ℕ → Mux → ℕ
tally id m = waiting id m.connections + answered id m.replies

abbrev pub reply_at : ℕ → List (ℕ × Connection) → Option ℕ
reply_at k m = case_option (get k m) none λ c. c.connect_reply

-- A port is a key once.
abbrev pub IsUnique : List (ℕ × Connection) → Type 0
IsUnique [] = Unit {0}
IsUnique ((k, c) ∷ m) = (get k m ≡ none) × IsUnique m

pub remove-IsUnique : (k : ℕ) (m : List (ℕ × Connection)) → IsUnique m → IsUnique (remove k m)
unfolding remove
remove-IsUnique k [] h = tt
remove-IsUnique k ((j, c) ∷ m) h = ground (arith, remove-IsUnique k m h.1, get-remove k j m)

pub insert-IsUnique :
    (k : ℕ) (c : Connection) (m : List (ℕ × Connection)) → IsUnique m → IsUnique (insert k c m)
unfolding insert
insert-IsUnique k c m h = (ground (arith, get-remove k k m), remove-IsUnique k m h)

pub remove-none : (k : ℕ) (m : List (ℕ × Connection)) → get k m ≡ none → remove k m ≡ m
unfolding get remove
remove-none k [] h = refl
remove-none k ((j, c) ∷ m) h = ground (arith, remove-none k m)

pub waiting-remove :
    (id k : ℕ) (m : List (ℕ × Connection))
    → IsUnique m
    → waiting id (remove k m) + pending id (reply_at k m) ≡ waiting id m
unfolding get remove
waiting-remove id k [] h = refl
waiting-remove id k ((j, c) ∷ m) h = elim (Bool-cases (j == k)) [
  | inl hit ↦
      let gone : get k m ≡ none = subst (λ x. get x m ≡ none) ((==_iff j k).0 hit) h.0 in
      rw (hit, remove, get) (omega (arith, ap (waiting id) (remove-none k m gone)))
  | inr miss ↦ rw (miss, remove, get) (omega (arith, waiting-remove id k m h.1))
]

answered-append :
    (id : ℕ) (rs : List (ℕ × Io (Unit {0}))) (j : ℕ) (r : Io (Unit {0}))
    → answered id (rs ++ (j, r) ∷ []) ≡ answered id rs + pending id (some j)
answered-append id [] j r = omega arith
answered-append id (x ∷ rs) j r = omega (arith, answered-append id rs j r)

pub tally-reply :
    (id : ℕ) (m : Mux) (o : Option ℕ) (r : Io (Unit {0}))
    → tally id (reply m o r) ≡ tally id m + pending id o
unfolding reply
tally-reply id m none r = omega arith
tally-reply id m (some j) r = omega (arith, answered-append id m.replies j r)

pub connections-reply :
    (m : Mux) (o : Option ℕ) (r : Io (Unit {0})) → (reply m o r).connections ≡ m.connections
unfolding reply
connections-reply m none r = refl
connections-reply m (some j) r = refl
