-- ===== src/Heartbeat/Signal.antt =====
-- The long poll for signals of internal/heartbeat/signal.go. What each round of the loop meets is an
-- input; the list ends where the context is done. Times are in seconds.
use appcenter_agent.Common.{
  ℕ, zero, suc, ◌*◌, ◌^◌, ◌≤◌, ◌≡◌, refl, sym, ap, ◌∙◌, inl, inr, Option, none, some, List, [], ◌∷◌,
  ◌++◌, arith, ltb, if◌then◌else◌, ltb→lt, Bool-cases, ◌==◌, nat_eq, int_eq, string_eq, All,
}
use mathlib.Core.List.{append_assoc}
use native.Mathlib.Nat.{pow-succ', mul_assoc}
use appcenter_agent.Client.{SignalResponse}

abbrev pub signal_backoff_min : ℕ
signal_backoff_min = 2

abbrev pub signal_backoff_max : ℕ
signal_backoff_max = 60

-- a round: the WebSocket is active, the server answers, or WaitForSignal returns an error
pub data Round : Type 0 where
  ws_active : Round
  answered : SignalResponse → Round
  poll_error : Round

pub data Action : Type 0 where
  wait : ℕ → Action
  on_signal : Action

-- backoff *= 2, and its limit
unfoldable pub next_backoff : ℕ → ℕ
next_backoff backoff =
    if ltb signal_backoff_max (backoff * 2) then signal_backoff_max else backoff * 2

abbrev pub signalled : SignalResponse → List Action → List Action
signalled resp rest = if resp.status == "signal" then on_signal ∷ rest else rest

unfoldable pub listen : ℕ → List Round → List Action
unfolding next_backoff
listen backoff [] = []
listen backoff (ws_active ∷ rounds) = wait 5 ∷ listen backoff rounds
listen backoff (poll_error ∷ rounds) = wait backoff ∷ listen (next_backoff backoff) rounds
listen backoff (answered resp ∷ rounds) = signalled resp (listen signal_backoff_min rounds)

-- Start
unfoldable pub start : List Round → List Action
unfolding listen
start rounds = listen signal_backoff_min rounds

abbrev pub InBounds : Action → Type 0
InBounds (wait n) = (2 ≤ n) × (n ≤ 60)
InBounds on_signal = Unit

next_in_bounds : (b : ℕ) → 2 ≤ b → (2 ≤ next_backoff b) × (next_backoff b ≤ 60)
unfolding next_backoff
next_in_bounds b h = ground arith

listen-InBounds : (b : ℕ) (rounds : List Round) → 2 ≤ b → b ≤ 60 → All InBounds (listen b rounds)
unfolding listen
listen-InBounds b [] h k = tt
listen-InBounds b (ws_active ∷ rounds) h k =
    ((omega arith, omega arith), listen-InBounds b rounds h k)
listen-InBounds b (poll_error ∷ rounds) h k =
    let next = next_in_bounds b h in ((h, k), listen-InBounds (next_backoff b) rounds next.0 next.1)
listen-InBounds b (answered resp ∷ rounds) h k = elim (Bool-cases (resp.status == "signal")) [
  | inl e ↦ rw e (tt, listen-InBounds 2 rounds (omega arith) (omega arith))
  | inr e ↦ rw e (listen-InBounds 2 rounds (omega arith) (omega arith))
]

abbrev pub errors : ℕ → List Round → List Round
errors zero rounds = rounds
errors (suc n) rounds = poll_error ∷ errors n rounds

abbrev pub get_elem? : List Action → ℕ → Option Action
get_elem? [] n = none
get_elem? (a ∷ rest) zero = some a
get_elem? (a ∷ rest) (suc n) = get_elem? rest n

abbrev pub min : ℕ → ℕ → ℕ
min a b = if ltb b a then b else a

min_of_le : (a b : ℕ) → a ≤ b → min a b ≡ a
min_of_le a b h = ground arith

min_of_ge : (a b : ℕ) → b ≤ a → min a b ≡ b
min_of_ge a b h = ground arith

pow_positive : (k : ℕ) → 1 ≤ 2 ^ k
pow_positive zero = omega arith
pow_positive (suc k) = omega (arith, pow_positive k)

le_times : (a p : ℕ) → 1 ≤ p → a ≤ a * p
le_times a zero h = absurd (omega (arith, h))
le_times a (suc p) h = omega arith

double_pow : (b k : ℕ) → b * 2 ^ suc k ≡ b * 2 * 2 ^ k
double_pow b k = grind (arith, pow-succ' 2 k, mul_assoc b 2 (2 ^ k))

next_min : (b k : ℕ) → min (next_backoff b * 2 ^ k) 60 ≡ min (b * 2 ^ suc k) 60
unfolding next_backoff
next_min b k = elim (Bool-cases (ltb 60 (b * 2))) [
  | inl over ↦
      rw (over, double_pow b k)
        (min_of_ge (60 * 2 ^ k) 60 (le_times 60 (2 ^ k) (pow_positive k))
          ∙ sym (
              min_of_ge (b * 2 * 2 ^ k) 60
                (omega (arith, ltb→lt 60 (b * 2) over, le_times (b * 2) (2 ^ k) (pow_positive k)))))
  | inr below ↦ rw (below, double_pow b k) refl
]

doubled :
    (k b : ℕ) (rounds : List Round)
    → 2 ≤ b
    → b ≤ 60
    → get_elem? (listen b (errors (suc k) rounds)) k ≡ some (wait (min (b * 2 ^ k) 60))
unfolding listen
doubled zero b rounds h l =
    let one : b * 2 ^ 0 ≡ b = omega arith in
    ap (λ n. some (wait n)) (sym (ap (λ n. min n 60) one ∙ min_of_le b 60 l))
doubled (suc k) b rounds h l =
    let next = next_in_bounds b h in
    doubled k (next_backoff b) rounds next.0 next.1 ∙ ap (λ n. some (wait n)) (next_min b k)

signalled-append :
    (resp : SignalResponse) (xs : List Action) → signalled resp xs ≡ signalled resp [] ++ xs
signalled-append resp xs = elim (Bool-cases (resp.status == "signal")) [
  | inl e ↦ rw e refl
  | inr e ↦ rw e refl
]

after_answer :
    (b : ℕ) (before : List Round) (resp : SignalResponse) (rounds : List Round)
    → listen b (before ++ (answered resp ∷ rounds))
      ≡ listen b (before ++ (answered resp ∷ [])) ++ listen signal_backoff_min rounds
unfolding listen
after_answer b [] resp rounds = signalled-append resp (listen signal_backoff_min rounds)
after_answer b (ws_active ∷ before) resp rounds =
    ap (λ xs. wait 5 ∷ xs) (after_answer b before resp rounds)
after_answer b (poll_error ∷ before) resp rounds =
    ap (λ xs. wait b ∷ xs) (after_answer (next_backoff b) before resp rounds)
after_answer b (answered r ∷ before) resp rounds =
    let rest = listen signal_backoff_min (before ++ (answered resp ∷ [])) in
    let later = listen signal_backoff_min rounds in
    signalled-append r (listen signal_backoff_min (before ++ (answered resp ∷ rounds)))
    ∙ ap (λ xs. signalled r [] ++ xs) (after_answer signal_backoff_min before resp rounds)
    ∙ sym (append_assoc (signalled r []) rest later)
    ∙ ap (λ xs. xs ++ later) (sym (signalled-append r rest))

-- Every wait of the signal listener is between two and sixty seconds, whatever it meets. After
-- an answer of the server it does what it does from its start, whatever came before. And the
-- wait after the error number k in a row from its start, counted from 0, is two times two to the
-- power of k seconds, or sixty if that is less.
pub signal_waits :
    (rounds before : List Round) (resp : SignalResponse)
    → All InBounds (start rounds)
      × (start (before ++ (answered resp ∷ rounds))
          ≡ start (before ++ (answered resp ∷ [])) ++ start rounds)
      × ((k : ℕ) → get_elem? (start (errors (suc k) rounds)) k ≡ some (wait (min (2 * 2 ^ k) 60)))
unfolding start
signal_waits rounds before resp = (
  listen-InBounds 2 rounds (omega arith) (omega arith),
  after_answer 2 before resp rounds,
  λ k. doubled k 2 rounds (omega arith) (omega arith),
)
