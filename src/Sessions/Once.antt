-- ===== src/Sessions/Once.antt =====
-- Every session is tried once, the one at the console first, and every user is reported once.
use appcenter_agent.Common.{
  ℕ, ◌+◌, ◌≤◌, String, ◌≡◌, refl, sym, ap, ◌∙◌, subst, ◌⊎◌, inl, inr, Bool, true, false, not, ◌&&◌,
  ◌||◌, Option, none, some, List, [], ◌∷◌, arith, ltb, leb, if◌then◌else◌, nat_beq, Bool-cases,
  ◌==◌, nat_eq, int_eq, string_eq, is_blank, length, head?,
}
use appcenter_agent.Common.Dict.{Dict, lookup, contains, insert, contains-insert}
use appcenter_agent.Common.Sort.{place, sort}
use appcenter_agent.Common.Text.{trim_space, append}
use appcenter_agent.Sessions.{
  WtsSession, has_id, add_id, add_active, add_console, candidate_session_ids, without,
  first_console, console_first, ordered_session_ids, LoggedInSession, reported_user, logged_in,
  report_user, report_users, get_logged_in_sessions, is_reportable_session_state,
}

-- how often a number stands in a list
unfoldable pub count : ℕ → List ℕ → ℕ
count id [] = 0
count id (j ∷ ids) = let rest = count id ids in if nat_beq j id then rest + 1 else rest

abbrev pub one_if : Bool → ℕ
one_if b = if b then 1 else 0

count-place : (id x : ℕ) (ids : List ℕ) → count id (place ltb x ids) ≡ count id (x ∷ ids)
unfolding count place
count-place id x [] = refl
count-place id x (j ∷ ids) = ground (arith, count-place id x ids)

count-sort : (id : ℕ) (ids : List ℕ) → count id (sort ltb ids) ≡ count id ids
unfolding count sort
count-sort id [] = refl
count-sort id (j ∷ ids) =
    count-place id j (sort ltb ids)
    ∙ ap (λ n. if nat_beq j id then n + 1 else n) (count-sort id ids)

count-without :
    (id console : ℕ) (ids : List ℕ)
    → count id (without console ids) ≡ (if nat_beq console id then 0 else count id ids)
unfolding count
count-without id console [] = ground arith
count-without id console (j ∷ ids) = ground (arith, count-without id console ids)

has_id-count : (id : ℕ) (ids : List ℕ) → has_id id ids ≡ ltb 0 (count id ids)
unfolding count has_id
has_id-count id [] = refl
has_id-count id (j ∷ ids) = ground (arith, has_id-count id ids)

count-add_id :
    (id j : ℕ) (ids : List ℕ)
    → count id (add_id j ids) ≡ (if has_id j ids then count id ids else count id (j ∷ ids))
unfolding add_id
count-add_id id j ids = elim (Bool-cases (has_id j ids)) [ inl e ↦ rw e refl | inr e ↦ rw e refl ]

-- whether an active session has this number
unfoldable pub has_active : ℕ → List WtsSession → Bool
has_active id [] = false
has_active id (s ∷ sessions) =
    let rest = has_active id sessions in
    if nat_beq s.state 0 && nat_beq s.session_id id then true else rest

count-added :
    (id j : ℕ) (ids : List ℕ) (b : Bool)
    → count id ids ≡ one_if b
    → count id (add_id j ids) ≡ one_if (if nat_beq j id then true else b)
unfolding count
count-added id j ids b h = elim (Bool-cases (nat_beq j id)) [
  | inl e ↦
      let same : j ≡ id = ground arith in
      let counts : count j ids ≡ count id ids = ap (λ k. count k ids) same in
      count-add_id id j ids ∙ ground (arith, has_id-count j ids, counts, h, same)
  | inr e ↦ count-add_id id j ids ∙ ground (arith, h, e)
]

count-add_active :
    (id : ℕ) (sessions : List WtsSession)
    → count id (add_active sessions []) ≡ one_if (has_active id sessions)
unfolding count add_active has_active
count-add_active id [] = refl
count-add_active id (s ∷ sessions) = elim (Bool-cases (nat_beq s.state 0)) [
  | inl e ↦ rw e (
      count-added id s.session_id (add_active sessions []) (has_active id sessions)
        (count-add_active id sessions))
  | inr e ↦ rw e (count-add_active id sessions)
]

abbrev pub is_console : ℕ → Option ℕ → Bool
is_console id none = false
is_console id (some console) = nat_beq console id

-- the session is at the console, or an active one
abbrev pub is_candidate : ℕ → List WtsSession → Option ℕ → Bool
is_candidate id sessions console = if is_console id console then true else has_active id sessions

count-candidates :
    (id : ℕ) (sessions : List WtsSession) (console : Option ℕ)
    → count id (candidate_session_ids sessions console) ≡ one_if (is_candidate id sessions console)
unfolding candidate_session_ids add_console
count-candidates id sessions none = count-sort id _ ∙ count-add_active id sessions
count-candidates id sessions (some console) =
    count-sort id _
    ∙ count-added id console (add_active sessions []) (has_active id sessions)
        (count-add_active id sessions)

count-console_first :
    (id : ℕ) (ids : List ℕ) (now : Option ℕ)
    → ((k : ℕ) → count k ids ≤ 1)
    → count id (console_first now ids) ≡ count id ids
unfolding console_first first_console count
count-console_first id ids none h = refl
count-console_first id ids (some console) h = elim (Bool-cases (has_id console ids)) [
  | inl e ↦ rw e (elim (Bool-cases (nat_beq console id)) [
    | inl q ↦
        let same : console ≡ id = ground arith in
        let counts : count console ids ≡ count id ids = ap (λ k. count k ids) same in
        ground (arith, count-without id console ids, has_id-count console ids, counts, h id, e, q)
    | inr q ↦ ground (arith, count-without id console ids, q)
  ])
  | inr e ↦ rw e (elim (Bool-cases (nat_beq console id)) [
    | inl q ↦
        let same : console ≡ id = ground arith in
        let counts : count console ids ≡ count id ids = ap (λ k. count k ids) same in
        ground (arith, count-without id console ids, has_id-count console ids, counts, e, q)
    | inr q ↦ ground (arith, count-without id console ids, q)
  ])
]

one_if_le : (b : Bool) → one_if b ≤ 1
one_if_le true = omega arith
one_if_le false = omega arith

-- orderedSessionIDs lists the session at the console and every active session exactly once, and
-- no other, wherever the console moves between the two times that it is asked for.
pub ordered_once :
    (sessions : List WtsSession) (console now : Option ℕ) (id : ℕ)
    → count id (ordered_session_ids sessions console now)
      ≡ one_if (is_candidate id sessions console)
unfolding ordered_session_ids
ordered_once sessions console now id =
    either (leb (length (candidate_session_ids sessions console)) 1) _ _ (
      count-console_first id (candidate_session_ids sessions console) now (λ k.
        subst (λ n. n ≤ 1) (sym (count-candidates k sessions console))
          (one_if_le (is_candidate k sessions console))))
    ∙ count-candidates id sessions console
  where
    either :
        (b : Bool) (xs ys : List ℕ)
        → count id ys ≡ count id xs
        → count id (if b then xs else ys) ≡ count id xs
    either true xs ys e = refl
    either false xs ys e = e

-- the only number of a short list
single : (c : ℕ) (xs : List ℕ) → leb (length xs) 1 ≡ true → count c xs ≡ 1 → head? xs ≡ some c
unfolding count
single c [] h e = absurd (omega (arith, e))
single c (x ∷ []) h e = elim (Bool-cases (nat_beq x c)) [
  | inl same ↦ let eq : x ≡ c = ground arith in ap some eq
  | inr differ ↦ let e' : 0 ≡ 1 = rw differ at e in absurd (omega (arith, e'))
]
single c (x ∷ y ∷ xs) h e = absurd (ground arith)

pub console_leads :
    (sessions : List WtsSession) (c : ℕ)
    → head? (ordered_session_ids sessions (some c) (some c)) ≡ some c
unfolding ordered_session_ids console_first first_console
console_leads sessions c =
    let all = candidate_session_ids sessions (some c) in
    let self : is_console c (some c) ≡ true = ground arith in
    let once : count c all ≡ 1 =
      count-candidates c sessions (some c)
      ∙ ap (λ b. one_if (if b then true else has_active c sessions)) self in
    elim (Bool-cases (leb (length all) 1)) [
      | inl short ↦ rw short (single c all short once)
      | inr long ↦ rw (long, has_id-count c all, once) refl
    ]

abbrev is_user : String → Option String → Bool
is_user name none = false
is_user name (some full) = full == name

-- the user of a session, behind the domain and a backslash if the session names one
abbrev pub user_of : WtsSession → String
user_of s =
    if is_blank (trim_space s.domain_name)
    then trim_space s.user_name
    else append (trim_space s.domain_name) (append "\\" (trim_space s.user_name))

-- the session is active (0) or disconnected (4), and of the user with this name
abbrev pub is_theirs : String → WtsSession → Bool
is_theirs name s =
    (nat_beq s.state 0 || nat_beq s.state 4)
    && not (is_blank (trim_space s.user_name))
    && (user_of s == name)

unfoldable pub has_user : String → List WtsSession → Bool
has_user name [] = false
has_user name (s ∷ sessions) =
    let rest = has_user name sessions in if is_theirs name s then true else rest

either_user :
    (name : String) (b c : Bool) (full : String)
    → is_user name (if not b then none else if c then none else some full)
      ≡ (b && not c && (full == name))
either_user name true true full = refl
either_user name true false full = refl
either_user name false c full = refl

is_user-reported :
    (name : String) (s : WtsSession) → is_user name (reported_user s) ≡ is_theirs name s
unfolding reported_user is_reportable_session_state
is_user-reported name s =
    either_user name (nat_beq s.state 0 || nat_beq s.state 4) (is_blank (trim_space s.user_name))
      (user_of s)

unfoldable pub count_user : String → List LoggedInSession → ℕ
count_user name [] = 0
count_user name (item ∷ items) =
    let rest = count_user name items in if item.username == name then rest + 1 else rest

-- a session of the user that is looked for
one_more :
    (name full : String) (s : WtsSession) (seen : Dict String Bool)
    (later : Dict String Bool → List LoggedInSession) (b : Bool)
    → (full == name) ≡ true
    → (contains full seen ≡ true) ⊎ (contains full seen ≡ false)
    → ((more : Dict String Bool)
        → count_user name (later more) ≡ (if contains name more then 0 else one_if b))
    → count_user name (report_user s (some full) seen later) ≡ (if contains name seen then 0 else 1)
unfolding count_user report_user logged_in
one_more name full s seen later b same (inl old) f =
    let known : contains name seen ≡ true =
      subst (λ n. contains n seen ≡ true) ((string_eq.test_iff full name).0 same) old in
    rw old (
      f seen ∙ ap (λ k. if k then 0 else one_if b) known ∙ sym (ap (λ k. if k then 0 else 1) known))
one_more name full s seen later b same (inr new) f =
    let unknown : contains name seen ≡ false =
      subst (λ n. contains n seen ≡ false) ((string_eq.test_iff full name).0 same) new in
    let held : contains name (insert full true seen) ≡ true =
      contains-insert full name true seen ∙ ap (λ k. if k then true else contains name seen) same in
    rw (new, same)
      (ap (λ n. n + 1) (f (insert full true seen) ∙ ap (λ k. if k then 0 else one_if b) held)
        ∙ sym (ap (λ k. if k then 0 else 1) unknown))

users_once :
    (name : String) (sessions : List WtsSession) (seen : Dict String Bool)
    → count_user name (report_users sessions seen)
      ≡ (if contains name seen then 0 else one_if (has_user name sessions))
unfolding count_user has_user report_users
users_once name [] seen = ground arith
users_once name (s ∷ sessions) seen =
    by_user (reported_user s) (users_once name sessions)
    ∙ ap
        (λ b. if contains name seen then 0 else one_if (if b then true else has_user name sessions))
        (is_user-reported name s)
  where
    by_user :
        (o : Option String)
        → ((more : Dict String Bool)
            → count_user name (report_users sessions more)
              ≡ (if contains name more then 0 else one_if (has_user name sessions)))
        → count_user name (report_user s o seen (report_users sessions)) ≡ (
            if contains name seen
            then 0
            else one_if (if is_user name o then true else has_user name sessions))
    by_user none later = later seen
    by_user (some full) later = elim (Bool-cases (full == name)) [
      | inl same ↦
          one_more name full s seen (report_users sessions) (has_user name sessions) same
            (Bool-cases (contains full seen)) later
          ∙ ap
              (λ b.
                if contains name seen
                then 0
                else one_if (if b then true else has_user name sessions))
              (sym same)
      | inr differ ↦ elim (Bool-cases (contains full seen)) [
        | inl old ↦ rw (old, differ) (later seen)
        | inr new ↦
            rw (new, differ)
              (later (insert full true seen)
                ∙ ap (λ b. if b then 0 else one_if (has_user name sessions))
                    (contains-insert full name true seen
                      ∙ ap (λ b. if b then true else contains name seen) differ))
      ]
    ]

-- GetLoggedInSessions reports a user exactly once if some session in the state 0, active, or 4,
-- disconnected, has a user name that is not blank and, with its domain, is theirs, and not at
-- all otherwise.
pub reported_once :
    (sessions : List WtsSession) (name : String)
    → count_user name (get_logged_in_sessions sessions) ≡ one_if (has_user name sessions)
unfolding get_logged_in_sessions lookup
reported_once sessions name = users_once name sessions []
