-- ===== src/Memory/Similar/Relation.antt =====
-- That classifyRelationship of backend/internal/memory/service.go is symmetric, and so are the tests
-- that it makes.
use native.Mathlib.Nat.{add_comm}
use mathlib.Core.Path.{ap₂}
use open_agent_showcase.Common.{
  ℕ, ◌+◌, ◌*◌, String, List, [], ◌∷◌, Bool, true, false, ◌||◌, ◌&&◌, not, ◌==◌, str_eq,
  if◌then◌else◌, any, length, Bytes, bytes_eq, to_lower, ◌≡◌, refl, ap, arith, eq_iff,
}
use open_agent_showcase.Memory.Fraction.{Fraction, over, plus, times, below, percent}
use open_agent_showcase.Memory.Text.{normalize, words_of, token_set}
use open_agent_showcase.Memory.Sequence.{longest_common_subsequence}
use open_agent_showcase.Memory.Similar.{
  subjects, value_formats, opposed_formats, contradict_pairs, outside, jaccard, text_similarity,
  shares_subject, has_word, last_word, is_other, is_none, join, find_numbers, has_value_change,
  opposes, differ, is_contradictory, classify_relationship,
}
use open_agent_showcase.Memory.Similar.Symmetric.{
  longest_common_subsequence_comm, bytes_eq_comm, token_jaccard_comm,
}

weighted :
    (j : Fraction) (c m n : ℕ) (k l : ℕ)
    → (if k == 0 && l == 0
        then over 0 1
        else plus (times j (over 6 10)) (times (over (c * 2) (m + n)) (over 4 10)))
      ≡ (if l == 0 && k == 0
          then over 0 1
          else plus (times j (over 6 10)) (times (over (c * 2) (n + m)) (over 4 10)))
weighted j c m n k l = ground (arith, add_comm m n)

text_similarity_comm : (a b : Bytes) → text_similarity a b ≡ text_similarity b a
unfolding text_similarity
text_similarity_comm a b =
    rw
      (
        bytes_eq_comm (normalize a),
        token_jaccard_comm (normalize a),
        longest_common_subsequence_comm (words_of (normalize a)),
      )
      (ap (λ f. if bytes_eq (normalize b) (normalize a) then over 1 1 else f)
        (weighted (jaccard (token_set (normalize b)) (token_set (normalize a)))
          (longest_common_subsequence (words_of (normalize b)) (words_of (normalize a)))
          (length (words_of (normalize a))) (length (words_of (normalize b))) (length (normalize a))
          (length (normalize b))))

and_comm : (b c : Bool) → (b && c) ≡ (c && b)
and_comm true true = refl
and_comm true false = refl
and_comm false true = refl
and_comm false false = refl

any-congr {ℓ} :
    {A : Type ℓ} (f g : A → Bool) (xs : List A) → ((x : A) → f x ≡ g x) → any f xs ≡ any g xs
any-congr f g [] h = refl
any-congr f g (x ∷ xs) h = rw (h x, any-congr f g xs h) refl

shares_subject_comm : (a b : Bytes) → shares_subject a b ≡ shares_subject b a
unfolding shares_subject
shares_subject_comm a b =
    ap₂ ◌||◌
      (any-congr (λ s. has_word (to_lower a) s && has_word (to_lower b) s)
        (λ s. has_word (to_lower b) s && has_word (to_lower a) s) subjects
        (λ s. and_comm (has_word (to_lower a) s) (has_word (to_lower b) s)))
      (ap (below (percent 30)) (token_jaccard_comm (normalize a) (normalize b)))

str_eq_comm : (v w : String) → str_eq v w ≡ str_eq w v
str_eq_comm v w = ground (arith, eq_iff v w, eq_iff w v)

is_other_comm : (v w : String) → is_other v w ≡ is_other w v
is_other_comm v w = shuffle (str_eq v "") (str_eq w "") (str_eq v w) (str_eq w v) (str_eq_comm v w)
  where
    shuffle : (a b c d : Bool) → c ≡ d → (not a && (not b && not c)) ≡ (not b && (not a && not d))
    shuffle a b c d h = ground arith

differ_comm : (b c : Bool) → differ b c ≡ differ c b
differ_comm b c = ground arith

opposes_comm : (a b : Bytes) (p : String × String) → opposes a b p ≡ opposes b a p
unfolding opposes
opposes_comm a b (v, w) = shuffle (has_word a v) (has_word b w) (has_word a w) (has_word b v)
  where
    shuffle : (x y z t : Bool) → ((x && y) || (z && t)) ≡ ((t && z) || (y && x))
    shuffle x y z t = ground arith

is_contradictory_comm : (a b : Bytes) → is_contradictory a b ≡ is_contradictory b a
unfolding is_contradictory
is_contradictory_comm a b = ap₂ ◌&&◌ (shares_subject_comm a b) (
    ap₂ ◌||◌
      (is_other_comm (last_word (to_lower a) "" opposed_formats)
        (last_word (to_lower b) "" opposed_formats))
      (ap₂ ◌||◌ (differ_comm (has_word (to_lower a) "not") (has_word (to_lower b) "not")) (
        any-congr (opposes (to_lower a) (to_lower b)) (opposes (to_lower b) (to_lower a))
          contradict_pairs (opposes_comm (to_lower a) (to_lower b)))))

has_value_change_comm : (a b : Bytes) → has_value_change a b ≡ has_value_change b a
unfolding has_value_change
has_value_change_comm a b =
    ap₂ ◌||◌
      (is_other_comm (last_word (to_lower a) "" value_formats)
        (last_word (to_lower b) "" value_formats))
      (rw (bytes_eq_comm (join (find_numbers outside (to_lower a))), shares_subject_comm a)
        (shuffle (is_none (find_numbers outside (to_lower a)))
          (is_none (find_numbers outside (to_lower b))) _))
  where
    shuffle : (x y z : Bool) → (not x && (not y && z)) ≡ (not y && (not x && z))
    shuffle x y z = ground arith

-- The relation of two memories and the confidence in it do not depend on which of them is the older.
pub classify_relationship_comm :
    (a b : Bytes) → classify_relationship a b ≡ classify_relationship b a
unfolding classify_relationship
classify_relationship_comm a b =
    rw
      (
        bytes_eq_comm (normalize a),
        token_jaccard_comm (normalize a),
        text_similarity_comm a,
        shares_subject_comm a,
        has_value_change_comm a,
        is_contradictory_comm a,
      )
      refl
