-- ===== src/Config/Journals.antt =====
-- config/journals.py: the journals that a user maintains, once their ISSNs are normalised. A text is
-- its code points.
pub mod Unique
use paper_radar.Prelude.{
  Bool, List, String, [], any, false, if◌then◌else◌, ℕ, ◌&&◌, ◌++◌, ◌||◌, ◌∷◌,
}
use paper_radar.Prelude.Text.{codes_leb}
use paper_radar.Prelude.Results.{Result, ok, problem, raise_if, ◌>>=◌, ◌>>◌}
use paper_radar.Config.Issn.{IssnReason, normalize_issn}

pub data JournalTier : Type 0 where
  preferred normal low : JournalTier

pub record JournalEntry : Type 0 where
  pub issn_l : List ℕ
  pub issns : List (List ℕ)
  pub name : String
  pub tier : JournalTier

-- Those of `ConfigValidationReason` that are raised.
pub data JournalReason : Type 0 where
  of_issn : IssnReason → JournalReason
  journal_identifiers_conflict : JournalReason

abbrev pub codes_eq : List ℕ → List ℕ → Bool
codes_eq a b = codes_leb a b && codes_leb b a

abbrev pub has_issn : List ℕ → List (List ℕ) → Bool
has_issn x xs = any (codes_eq x) xs

-- `sorted` on texts.
unfoldable pub place_issn : List ℕ → List (List ℕ) → List (List ℕ)
place_issn x [] = x ∷ []
place_issn x (y ∷ ys) =
    let later = place_issn x ys in if codes_leb x y then x ∷ y ∷ ys else y ∷ later

unfoldable pub sort_issns : List (List ℕ) → List (List ℕ)
sort_issns [] = []
sort_issns (x ∷ xs) = place_issn x (sort_issns xs)

unfoldable pub normalize_all : List (List ℕ) → Result JournalReason (List (List ℕ))
normalize_all [] = ok []
normalize_all (x ∷ xs) = do
  first ← elim (normalize_issn x) [ ok w ↦ ok w | problem r ↦ problem (of_issn r) ]
  later ← normalize_all xs
  ok (first ∷ later)

-- `len(set(xs)) != len(xs)`
unfoldable pub has_repeated : List (List ℕ) → Bool
has_repeated [] = false
has_repeated (x ∷ xs) = has_issn x xs || has_repeated xs

-- `Journal.valid_issns`
unfoldable pub valid_issns : List (List ℕ) → Result JournalReason (List (List ℕ))
valid_issns value = do
  normalized ← normalize_all value
  raise_if (has_repeated normalized) journal_identifiers_conflict
  ok (sort_issns normalized)

abbrev pub identifiers : JournalEntry → List (List ℕ)
identifiers j = j.issn_l ∷ j.issns

-- The loop of `Journals.unique_identifiers`.
unfoldable pub check_identifiers :
    List (List ℕ) → List JournalEntry → Result JournalReason (Unit {0})
check_identifiers seen [] = ok tt
check_identifiers seen (j ∷ js) = do
  raise_if (any (λ x. has_issn x seen) (identifiers j)) journal_identifiers_conflict
  check_identifiers (identifiers j ++ seen) js

unfoldable pub place_journal : JournalEntry → List JournalEntry → List JournalEntry
place_journal x [] = x ∷ []
place_journal x (y ∷ ys) =
    let later = place_journal x ys in if codes_leb x.issn_l y.issn_l then x ∷ y ∷ ys else y ∷ later

unfoldable pub sort_journals : List JournalEntry → List JournalEntry
sort_journals [] = []
sort_journals (x ∷ xs) = place_journal x (sort_journals xs)

-- `Journals.unique_identifiers`
unfoldable pub unique_identifiers : List JournalEntry → Result JournalReason (List JournalEntry)
unique_identifiers value = do check_identifiers [] value; ok (sort_journals value)
