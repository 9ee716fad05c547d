-- ===== src/Dap/Watch.antt =====
-- crates/dap-core/src/data_watch.rs: a data breakpoint that the client emulates.
use dappy_core.Common.{
  String, ◌≡◌, refl, ap, subst, inl, inr, Bool, true, false, not, Option, none, some, List, [], ◌∷◌,
  arith, if◌then◌else◌, Bool-cases, ◌==◌, nat_eq, string_eq, ==-refl, ==-eq, is_text,
}

pub record DataWatchEntry : Type 0 where
  pub expression : String
  pub baseline : Option String
  pub armed : Bool
  pub emulated : Bool

unfoldable pub new : String → Bool → DataWatchEntry
new expression emulated = record {
  expression = expression;
  baseline = none;
  armed = false;
  emulated = emulated;
}

-- The answer, and the entry as it then is.
unfoldable pub data_watch_should_stop : DataWatchEntry → String → Bool × DataWatchEntry
data_watch_should_stop entry current =
    if not entry.armed
    then (false, record entry { baseline = some current; armed = true })
    else if not (is_text entry.baseline current)
    then (true, record entry { baseline = some current })
    else (false, entry)

unfoldable pub uses_emulated_data_breakpoints : Bool → Bool
uses_emulated_data_breakpoints supported = not supported

-- The answers for the values that are seen one after the other.
abbrev pub answers : DataWatchEntry → List String → List Bool
answers entry [] = []
answers entry (v ∷ vs) =
    (data_watch_should_stop entry v).0 ∷ answers (data_watch_should_stop entry v).1 vs

-- Whether each value differs from the one before it.
abbrev pub changes : String → List String → List Bool
changes before [] = []
changes before (v ∷ vs) = not (before == v) ∷ changes v vs

armed_at : DataWatchEntry → String → DataWatchEntry
armed_at entry v = record entry { baseline = some v; armed = true }

step-armed_at :
    (entry : DataWatchEntry) (before v : String)
    → ((data_watch_should_stop (armed_at entry before) v).0 ≡ not (before == v))
      × ((data_watch_should_stop (armed_at entry before) v).1 ≡ armed_at entry v)
unfolding data_watch_should_stop armed_at
step-armed_at entry before v = elim (Bool-cases (before == v)) [
  | inl same ↦
      let e = ==-eq before v same in
      subst
        (λ u.
          ((data_watch_should_stop (armed_at entry before) u).0 ≡ not (before == u))
          × ((data_watch_should_stop (armed_at entry before) u).1 ≡ armed_at entry u))
        e (rw (==-refl before) (refl, refl))
  | inr apart ↦ rw apart (refl, refl)
]

answers-armed_at :
    (entry : DataWatchEntry) (before : String) (vs : List String)
    → answers (armed_at entry before) vs ≡ changes before vs
answers-armed_at entry before [] = refl
answers-armed_at entry before (v ∷ vs) =
    let (answer, next) = step-armed_at entry before v in
    ground (arith, answer, ap (λ e. answers e vs) next, answers-armed_at entry v vs)

-- A new watch does not stop at the first value that it sees, and after that stops exactly at the values
-- that differ from the one before.
pub answers-new :
    (expression : String) (emulated : Bool) (v : String) (vs : List String)
    → answers (new expression emulated) (v ∷ vs) ≡ false ∷ changes v vs
unfolding data_watch_should_stop new armed_at
answers-new expression emulated v vs =
    ap (◌∷◌ false) (answers-armed_at (new expression emulated) v vs)
