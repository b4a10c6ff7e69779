-- ===== src/Forward/Merged.antt =====
-- embeddings-forward/decisions.go: the answers of several batches in one body, and their usage. The
-- usage of a response comes in the order in which the loop over the map finds its fields. The floats
-- of strconv are parameters; an int64 is kept as its bit pattern.
pub mod Fields
pub mod Sums
use cpa_plugins.Base.{
  ℕ, ◌+◌, ◌-◌, ◌%◌, String, ◌=ₛ◌, Bool, true, false, not, ◌&&◌, ◌||◌, List, [], ◌∷◌, ◌++◌, Option,
  none, some, ℤ, pos, negsuc, if◌then◌else◌, trim_space, update, atoi, of_bits, decimal_ℤ,
}
use cpa_plugins.Forward.Bodies.{Raw, malformed, nil_map, raw_map, put_raw, raw_or_empty}
use cpa_plugins.Forward.Calls.{UpstreamResult}
use cpa_plugins.Forward.Decisions.{Field, AnswerMap}
use cpa_plugins.Forward.Objects.{Member, encode_object}

abbrev pub two_64 : ℕ
two_64 = 18446744073709551616

-- The bit pattern of an int64.
abbrev pub bits_of : ℤ → ℕ
bits_of (pos n) = n % 18446744073709551616
bits_of (negsuc n) = 18446744073709551615 - n % 18446744073709551616

-- strconv.ParseFloat, a float64 of an int64, the sum of floats, and strconv.FormatFloat.
pub record Floats : Type 1 where
  pub Float : Type 0
  pub parse : String → Option Float
  pub of_int : ℕ → Float
  pub zero_float : Float
  pub add : Float → Float → Float
  pub format : Float → String

module _ (floats : Floats) where
  open floats use {Float}

  pub record Total : Type 0 where
    pub integer : ℕ
    pub float : Float
    pub is_float : Bool

  -- `order`, `totals` and `other`.
  pub record Usage : Type 0 where
    pub order : List String
    pub totals : String → Option Total
    pub other : String → Option String

  abbrev pub no_usage : Usage
  no_usage = record { order = []; totals = λ k. none; other = λ k. none }

  abbrev pub has_value : {A : Type 0} → Option A → Bool
  has_value none = false
  has_value (some a) = true

  -- The zero value for a key without a total.
  abbrev pub total_or_zero : Option Total → Total
  total_or_zero none = record { integer = 0; float = floats.zero_float; is_float = false }
  total_or_zero (some t) = t

  abbrev add_float : Float → Total → Total
  add_float number t = record t {
    float = floats.add (if t.is_float then t.float else floats.of_int t.integer) number;
    is_float = true;
  }

  unfoldable pub add_number : Float → Option ℤ → Total → Total
  add_number number none t = add_float number t
  add_number number (some i) t =
      if t.is_float
      then add_float number t
      else record t { integer = (t.integer + bits_of i) % 18446744073709551616 }

  -- A value that is a number, or the first other value of its key.
  unfoldable pub add_value : String → String → Option Float → Usage → Usage
  unfolding add_number
  add_value key raw (some number) u = record u {
    totals =
        update u.totals key
          (some (add_number number (atoi (trim_space raw)) (total_or_zero (u.totals key))));
  }
  add_value key raw none u =
      if has_value (u.other key) then u else record u { other = update u.other key (some raw) }

  -- One turn of the inner loop.
  unfoldable pub add_field : Field → Usage → Usage
  unfolding add_value
  add_field f u = add_value f.key f.value (floats.parse (trim_space f.value)) (record u {
    order =
        if has_value (u.totals f.key) || has_value (u.other f.key)
        then u.order
        else u.order ++ f.key ∷ [];
  })

  unfoldable pub add_fields : List Field → Usage → Usage
  unfolding add_field
  add_fields [] u = u
  add_fields (f ∷ fs) u = add_fields fs (add_field f u)

  unfoldable pub format_total : Total → String
  format_total t = if t.is_float then floats.format t.float else decimal_ℤ (of_bits t.integer)

  unfoldable pub field_value : Option Total → Option String → String
  unfolding format_total
  field_value (some t) other = format_total t
  field_value none other = raw_or_empty other

  unfoldable pub usage_fields : List String → Usage → List Field
  unfolding field_value
  usage_fields [] u = []
  usage_fields (key ∷ keys) u =
      record { key = key; value = field_value (u.totals key) (u.other key) } ∷ usage_fields keys u

  -- `usage_of` is the `usage` of a response, nothing where it does not decode.
  module _ (usage_of : String → List Field) where
    -- The outer loop.
    unfoldable pub add_results : List UpstreamResult → Usage → Usage
    unfolding add_fields
    add_results [] u = u
    add_results (r ∷ rs) u = add_results rs (add_fields (usage_of r.body) u)

    unfoldable pub summed : List UpstreamResult → List Field
    unfolding add_results usage_fields
    summed results = let u = add_results results no_usage in usage_fields u.order u

    module _ (quote : String → String) (marshal : List Field → String)
        (unmarshal : String → Raw) where
      unfoldable pub sum_usage : List UpstreamResult → String
      unfolding summed encode_object
      sum_usage results = encode_object quote (summed results)

      -- The answers in the order of the questions.
      unfoldable pub ordered_answers : List Field → AnswerMap → List Field
      ordered_answers [] answers = []
      ordered_answers (q ∷ qs) answers =
          record { key = q.key; value = raw_or_empty (answers q.key) } ∷ ordered_answers qs answers

      abbrev first_body : List UpstreamResult → String
      first_body [] = ""
      first_body (r ∷ rs) = r.body

      -- Writing into a nil map is a panic, here `none`; a body that does not decode leaves the map nil.
      unfoldable pub merge_decisions : List Field → AnswerMap → List UpstreamResult → Option String
      unfolding put_raw sum_usage ordered_answers encode_object
      merge_decisions questions answers results = elim (unmarshal (first_body results)) [
        | malformed ↦ none
        | nil_map ↦ none
        | raw_map top ↦ some (
            marshal (
              put_raw "usage" (sum_usage results)
                (put_raw "answers" (encode_object quote (ordered_answers questions answers)) top)))
      ]
