-- ===== src/Forward/Keys.antt =====
-- embeddings-forward/forward.go: the round-robin and cooldown state of the API keys. A method that
-- locks the state takes it and returns it; the clock's reading is an argument, in nanoseconds.
pub mod Rotation
pub mod RoundRobin
pub mod Providers
use cpa_plugins.Base.{
  ℕ, zero, suc, ◌+◌, ◌%◌, String, ◌++ₛ◌, Bool, true, false, not, ◌&&◌, List, [], ◌∷◌, ◌++◌, map,
  Option, none, some, ℤ, pos, negsuc, ◌+ℤ◌, ltb_ℤ, max_ℤ, wrap_int64, scale, length, get_or, ◌=ₛ◌,
  ◌==◌, if◌then◌else◌, update,
}
use cpa_plugins.Forward.Config.{Provider, Match}

pub record KeyState : Type 0 where
  pub next : String → ℕ  -- uint64
  pub cooldowns : String → Option ℤ

pub new_key_state : KeyState
new_key_state = record { next = λ _. 0; cooldowns = λ _. none }

-- The key of the cooldown map: p.Name + "\x00" + key.
abbrev pub cooldown_key : Provider → String → String
cooldown_key p key = p.name ++ₛ "\0" ++ₛ key

-- `until, ok := s.cooldowns[…]; ok && now.Before(until)`
abbrev before : ℤ → Option ℤ → Bool
before now none = false
before now (some t) = ltb_ℤ now t

unfoldable pub is_cooling : KeyState → Provider → ℤ → String → Bool
is_cooling s p now key = before now (s.cooldowns (cooldown_key p key))

-- The loop of `ordered` with i = n - rounds: APIKeys[(start + i) % n] goes to `hot` or to `cold`.
unfoldable pub sort_keys :
    (String → Bool) → List String → ℕ → ℕ → ℕ → List String → List String → List String
sort_keys cooling keys start zero i hot cold = hot ++ cold
sort_keys cooling keys start (suc rounds) i hot cold =
    let key = get_or keys ((start + i) % length keys) "" in
    sort_keys cooling keys start rounds (suc i) (if cooling key then hot else hot ++ key ∷ [])
      (if cooling key then cold ++ key ∷ [] else cold)

abbrev pub is_round_robin : Provider → Bool
is_round_robin p = p.strategy =ₛ "round_robin"

abbrev pub start_of : KeyState → Provider → ℕ
start_of s p = if is_round_robin p then s.next p.name % length p.api_keys else 0

-- The counter is a uint64 and wraps.
abbrev pub advance : KeyState → Provider → KeyState
advance s p =
    if is_round_robin p
    then record s { next = update s.next p.name ((s.next p.name + 1) % 18446744073709551616) }
    else s

-- `none` is the run-time panic of `% uint64(n)` at a provider without keys.
unfoldable pub ordered : KeyState → Provider → ℤ → Option (List String × KeyState)
unfolding sort_keys is_cooling
ordered s p now =
    if is_round_robin p && length p.api_keys == 0
    then none
    else some (
      sort_keys (is_cooling s p now) p.api_keys (start_of s p) (length p.api_keys) 0 [] [],
      advance s p,
    )

-- A second in nanoseconds; a product of durations wraps as int64.
abbrev pub seconds : ℤ → ℤ
seconds z = wrap_int64 (scale 1000000000 z)

abbrev pub is_zero : ℤ → Bool
is_zero (pos n) = n == 0
is_zero (negsuc n) = false

unfoldable pub cool : KeyState → Provider → String → ℤ → ℤ → KeyState
cool s p key retry_after now = if is_zero (seconds p.cooldown_seconds) then s else record s {
  cooldowns =
      update s.cooldowns (cooldown_key p key)
        (some (now +ℤ max_ℤ (seconds p.cooldown_seconds) retry_after));
}

-- The loop of `allCooling`.
unfoldable pub all_keys_cooling : KeyState → Provider → ℤ → List String → Bool
unfolding is_cooling
all_keys_cooling s p now [] = true
all_keys_cooling s p now (key ∷ keys) =
    if not (is_cooling s p now key) then false else all_keys_cooling s p now keys

unfoldable pub all_cooling : KeyState → Provider → ℤ → Bool
unfolding all_keys_cooling
all_cooling s p now = all_keys_cooling s p now p.api_keys

-- Each match with the answer of `allCooling`, the clock being read at each one.
unfoldable pub flag_cooling : KeyState → (ℕ → ℤ) → ℕ → List Match → List (Match × Bool)
unfolding all_cooling
flag_cooling s clock reads [] = []
flag_cooling s clock reads (m ∷ ms) =
    (m, all_cooling s m.provider (clock reads)) ∷ flag_cooling s clock (suc reads) ms

abbrev less : Match × Bool → Match × Bool → Bool
less a b = not a.1 && b.1

-- sort.SliceStable, as an insertion sort: equal elements keep their order.
unfoldable pub insert_stable : Match × Bool → List (Match × Bool) → List (Match × Bool)
insert_stable x [] = x ∷ []
insert_stable x (y ∷ ys) = if less y x then y ∷ insert_stable x ys else x ∷ y ∷ ys

unfoldable pub sort_stable : List (Match × Bool) → List (Match × Bool)
unfolding insert_stable
sort_stable [] = []
sort_stable (x ∷ xs) = insert_stable x (sort_stable xs)

-- `clock` gives the readings of the clock from the `reads`-th on.
unfoldable pub order : KeyState → (ℕ → ℤ) → ℕ → List Match → List Match
unfolding flag_cooling sort_stable
order s clock reads matches = map (λ x. x.0) (sort_stable (flag_cooling s clock reads matches))
