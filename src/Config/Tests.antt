-- ===== src/Config/Tests.antt =====
-- config/journals.py: ISSNs and journals, accepted and refused.
use paper_radar.Prelude.{List, String, [], refl, ℕ, ◌↔◌, ◌∷◌, ◌≡◌}
use paper_radar.Prelude.Text.{codes}
use paper_radar.Prelude.Results.{ok, problem}
use paper_radar.Config.Issn.{
  compact, is_format, issn_checksum_invalid, issn_format_invalid, issn_sum, normalize_issn,
  weighted,
}
use paper_radar.Config.Journals.{
  JournalEntry, check_identifiers, has_repeated, journal_identifiers_conflict, normalize_all,
  place_issn, place_journal, preferred, sort_issns, sort_journals, unique_identifiers, valid_issns,
}
use paper_radar.Config.Journals.Unique.{ArePairwiseApart, unique_identifiers-ok_iff}
use paper_radar.Config.Issn.Checked.{normalize_issn-normalize_issn, normalize_issn-set_at, set_at}

normalizes : normalize_issn (codes "2434561x") ≡ ok (codes "2434-561X")
unfolding normalize_issn is_format compact issn_sum weighted
normalizes = refl

dashed : normalize_issn (codes "2434-561x") ≡ ok (codes "2434-561X")
unfolding normalize_issn is_format compact issn_sum weighted
dashed = refl

refuses_checksum : normalize_issn (codes "2434-5611") ≡ problem issn_checksum_invalid
unfolding normalize_issn is_format compact issn_sum weighted
refuses_checksum = refl

refuses_format : normalize_issn (codes "2434--561X") ≡ problem issn_format_invalid
unfolding normalize_issn is_format
refuses_format = refl

normalize_issn-normalize_issn_example : normalize_issn (codes "2434-561X") ≡ ok (codes "2434-561X")
normalize_issn-normalize_issn_example =
    normalize_issn-normalize_issn (codes "2434561x") (codes "2434-561X") normalizes

exchanged : compact (codes "2434-561x") ≡ set_at 7 88 (compact (codes "2434561x"))
unfolding compact
exchanged = refl

normalize_issn-set_at_example : codes "2434-561X" ≡ codes "2434-561X"
normalize_issn-set_at_example =
    normalize_issn-set_at (codes "2434561x") (codes "2434-561x") (codes "2434-561X")
      (codes "2434-561X") 7 88 normalizes dashed exchanged

abbrev named : String → List (List ℕ) → JournalEntry
named issn_l issns = record { issn_l = codes issn_l; issns = issns; name = "J"; tier = preferred }

abbrev two_journals : List JournalEntry
two_journals = named "2434-561X" [] ∷ named "0317-8471" (codes "0000-0000" ∷ []) ∷ []

sorts :
    unique_identifiers two_journals
    ≡ ok (named "0317-8471" (codes "0000-0000" ∷ []) ∷ named "2434-561X" [] ∷ [])
unfolding unique_identifiers check_identifiers sort_journals place_journal
sorts = refl

refuses_shared :
    unique_identifiers (named "0317-8471" (codes "2434-561X" ∷ []) ∷ two_journals)
    ≡ problem journal_identifiers_conflict
unfolding unique_identifiers check_identifiers
refuses_shared = refl

valid :
    valid_issns (codes "2434561x" ∷ codes "0000-0000" ∷ [])
    ≡ ok (codes "0000-0000" ∷ codes "2434-561X" ∷ [])
unfolding valid_issns normalize_all normalize_issn is_format compact issn_sum weighted has_repeated
    sort_issns place_issn
valid = refl

unique_identifiers-ok_iff_example :
    (unique_identifiers two_journals ≡ ok two_journals)
    ↔ (ArePairwiseApart two_journals × (sort_journals two_journals ≡ two_journals))
unique_identifiers-ok_iff_example = unique_identifiers-ok_iff two_journals two_journals
