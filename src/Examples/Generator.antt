-- ===== src/Examples/Generator.antt =====
-- A generator whose random numbers count up, and two migration files of which the second fails.
use optionx_assignment.Common.{
  ℕ, suc, ◌+◌, ◌<◌, ltb, length, Bool, true, false, String, List, [], ◌∷◌, drop, Option, none, some,
  ℤ, pos, arith, refl, Bool-cases, inl, inr, ◌≡◌, ◌==◌, if◌then◌else◌,
}
use optionx_assignment.Examples.{cents}
use optionx_assignment.Tickgen.{Libraries, Event, start_walk, stream}
use optionx_assignment.Tickgen.Replay.{trace, emit_all, stream-from}
use optionx_assignment.Tickgen.Sequence.{seqs_at, count_up, seqs_at_lem}
use optionx_assignment.Database.{TxFault, Host, migrate}
use optionx_assignment.Database.Migration.{AllOrNothing, Promise, migrate-Promise}

-- Counts up, and starts again at 0.
abbrev pub below : ℕ → ℕ → ℕ
below n r = if ltb r n then r else 0

pub below_lt : (n r : ℕ) → 0 < n → below n r < n
below_lt n r h = ground arith

abbrev pub counting : Libraries
counting = record {
  Rand = ℕ;
  seeded = λ z. 0;
  float = λ r. (pos r, suc r);
  intn = λ n r. (below n r, suc r);
  intn_lt = below_lt;
  round = λ x. x;
  ratio = λ a b. pos a;
  show_int = λ n. "";
}

-- It takes three events and then says no.
abbrev take_three : ℤ → Event → ℕ → ℕ × Bool
take_three i e n = (suc n, if ltb n 2 then true else false)

stream-from_example :
    stream counting (2 + 4) (pos 42) (pos 2) take_three 0
    ≡ emit_all counting take_three 2
        (drop 2 (trace counting (2 + 4) (start_walk counting (pos 42))))
        0
stream-from_example = stream-from counting 2 4 (pos 42) take_three 0 (omega arith)

seqs_at_lem_example :
    seqs_at counting 5 9 (start_walk counting (pos 42))
    ≡ count_up counting 0 (length (seqs_at counting 5 9 (start_walk counting (pos 42))))
seqs_at_lem_example = seqs_at_lem counting 5 9 (pos 42) (omega arith)

-- Keeps what was applied, and refuses the contents "bad".
abbrev execute : String → List String → Option TxFault × List String
execute contents d = if contents == "bad" then (some TxFault.execute, d) else (none, contents ∷ d)

abbrev host : Host (List String)
host = record {
  read_dir = some (
      record { name = "1.sql"; is_dir = false }
      ∷ record { name = "old"; is_dir = true }
      ∷ record { name = "2.sql"; is_dir = false }
      ∷ []);
  read_file = λ name. if name == "1.sql" then some "good" else some "bad";
  sort = λ names. names;
  transact = execute;
}

host-AllOrNothing : AllOrNothing host
host-AllOrNothing contents d f e = elim (Bool-cases (contents == "bad")) [
  | inl b ↦ rw b refl
  | inr b ↦ let went : (execute contents d).0 ≡ none = rw b refl in cc
]

migrate-Promise_example : Promise host [] host.read_dir (migrate host [])
migrate-Promise_example = migrate-Promise host host-AllOrNothing []
