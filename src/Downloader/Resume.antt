-- ===== src/Downloader/Resume.antt =====
-- A download that is resumed from a server that keeps one file under the address.
use appcenter_agent.Common.{
  ℕ, String, ◌≡◌, refl, sym, ap, ◌∙◌, subst, ◌≢◌, inl, inr, true, false, Option, none, some, [],
  ◌∷◌, ◌++◌, arith, Bool-cases, ℤ, is_positive, ◌==◌, nat_eq, int_eq, string_eq, length,
}
use appcenter_agent.Common.Dict.{lookup, lookup-insert_self}
use appcenter_agent.Common.{nat_beq_iff}
use appcenter_agent.Files.{Bytes, Files}
use appcenter_agent.Downloader.{
  Response, Server, DownloadResult, download_file, store_body, on_response, resume_offset,
  range_header, written, or_no_bytes,
}

-- `a` followed by `b` is `c`
abbrev pub IsPrefix : Bytes → Bytes → Type 0
IsPrefix a c = (b : Bytes) × (a ++ b ≡ c)

-- What a reply may be that carries the content `c` from the offset asked for on: a body that comes
-- whole unless the reading of it breaks off.
abbrev pub Carries : Bytes → Response → Type 0
Carries rest resp = IsPrefix resp.body rest × (resp.broken ≡ false → resp.body ≡ rest)

-- A server that keeps the content `c` under an address: a reply 200 carries all of `c`; a reply 206
-- answers a Range header and carries what is left after its offset; every other status is free.
abbrev pub Keeps : Server → String → Bytes → Type 0
Keeps server url c =
    ((r : Option ℕ) (resp : Response)
      → server url r ≡ some resp
      → resp.status ≡ 200
      → Carries c resp)
    × ((r : Option ℕ) (resp : Response)
        → server url r ≡ some resp
        → resp.status ≡ 206
        → (done rest : Bytes) → r ≡ some (length done)
        → done ++ rest ≡ c
        → Carries rest resp)
    × ((resp : Response) → server url none ≡ some resp → resp.status ≢ 206)

-- the file is missing or a beginning of `c`
abbrev pub Partial : Files → String → Bytes → Type 0
Partial files dest c = IsPrefix (or_no_bytes (lookup dest files)) c

append_assoc : (a b d : Bytes) → (a ++ b) ++ d ≡ a ++ (b ++ d)
append_assoc [] b d = refl
append_assoc (x ∷ a) b d = ap (λ t. x ∷ t) (append_assoc a b d)

-- appending a beginning of what is left
extend-IsPrefix : (a b d c : Bytes) → a ++ b ≡ c → IsPrefix d b → IsPrefix (a ++ d) c
extend-IsPrefix a b d c e p = (p.0, append_assoc a d p.0 ∙ ap (λ t. a ++ t) p.1 ∙ e)

-- What a download promises: the destination stays a beginning of `c`, and a result means all of it.
abbrev pub Resumes : String → Bytes → Option DownloadResult × Files → Type 0
Resumes dest c r =
    Partial r.1 dest c × ((d : DownloadResult) → r.0 ≡ some d → lookup dest r.1 ≡ some c)

store-Resumes :
    (files : Files) (dest : String) (resp : Response) (offset : ℕ) (c : Bytes)
    → IsPrefix (written offset (lookup dest files) resp) c
    → (resp.broken ≡ false → written offset (lookup dest files) resp ≡ c)
    → Resumes dest c (store_body files dest resp offset)
unfolding store_body
store-Resumes files dest resp offset c p whole =
    let kept = lookup-insert_self dest (written offset (lookup dest files) resp) files in
    (
      subst (λ o. IsPrefix (or_no_bytes o) c) (sym kept) p,
      λ d e. elim (Bool-cases resp.broken) [
        | inl b ↦ ground arith
        | inr b ↦ kept ∙ ap some (whole b)
      ],
    )

-- the offset that is asked for
offset_own : (o : Option Bytes) → resume_offset o ≡ length (or_no_bytes o)
offset_own none = refl
offset_own (some old) = refl

range_own : (x : ℕ) (xs : Bytes) → range_header (length (x ∷ xs)) ≡ some (length (x ∷ xs))
range_own x xs = ground arith

written_on :
    (x : ℕ) (xs : Bytes) (resp : Response)
    → resp.status ≡ 206
    → written (length (x ∷ xs)) (some (x ∷ xs)) resp ≡ (x ∷ xs) ++ resp.body
written_on x xs resp e = ground (arith, e)

on_part :
    (files : Files) (dest : String) (offset : ℕ) (resp : Response)
    → resp.status == 206 ≡ true
    → on_response files dest offset (some resp) ≡ store_body files dest resp offset
unfolding on_response
on_part files dest offset resp e = elim (Bool-cases (resp.status == 200)) [
  | inl b ↦ rw b refl
  | inr b ↦ simp (b, e)
]

module _ (server : Server) (url : String) (c : Bytes) (k : Keeps server url c) where
  full-Carries :
      (old : Option Bytes) (resp : Response) (offset : ℕ)
      → Carries c resp
      → resp.status ≡ 200
      → IsPrefix (written offset old resp) c × (resp.broken ≡ false → written offset old resp ≡ c)
  full-Carries old resp offset h e = ground (arith, h, e)

  part-Carries :
      (old : Bytes) (resp : Response)
      → IsPrefix old c
      → server url (range_header (length old)) ≡ some resp
      → resp.status ≡ 206
      → IsPrefix (written (length old) (some old) resp) c
        × (resp.broken ≡ false → written (length old) (some old) resp ≡ c)
  part-Carries [] resp p e e' = elim (k.2 resp e e') [ ]
  part-Carries (x ∷ xs) resp p e e' =
      let h =
        k.1 (some (length (x ∷ xs))) resp (sym (ap (server url) (range_own x xs)) ∙ e) e' (x ∷ xs)
          p.0 refl p.1 in
      let grown = written_on x xs resp e' in
      (
        subst (λ t. IsPrefix t c) (sym grown) (extend-IsPrefix (x ∷ xs) p.0 resp.body c p.1 h.0),
        λ b. grown ∙ ap (λ t. (x ∷ xs) ++ t) (h.1 b) ∙ p.1,
      )

  resumed-Carries :
      (o : Option Bytes) (resp : Response)
      → IsPrefix (or_no_bytes o) c
      → server url (range_header (length (or_no_bytes o))) ≡ some resp
      → resp.status ≡ 206
      → IsPrefix (written (length (or_no_bytes o)) o resp) c
        × (resp.broken ≡ false → written (length (or_no_bytes o)) o resp ≡ c)
  resumed-Carries none resp p e e' = elim (k.2 resp e e') [ ]
  resumed-Carries (some old) resp p e e' = part-Carries old resp p e e'

  -- whatever the reply to the request that resumes
  reply-Resumes :
      (files : Files) (dest : String) (reply : Option Response)
      → Partial files dest c
      → server url (range_header (length (or_no_bytes (lookup dest files)))) ≡ reply
      → Resumes dest c (on_response files dest (length (or_no_bytes (lookup dest files))) reply)
  unfolding on_response
  reply-Resumes files dest none p e = (p, λ d e'. ground arith)
  reply-Resumes files dest (some resp) p e = elim (Bool-cases (resp.status == 200)) [
    | inl full ↦
        let h =
          full-Carries (lookup dest files) resp (length (or_no_bytes (lookup dest files)))
            (k.0 _ resp e ((nat_beq_iff resp.status 200).0 full))
            ((nat_beq_iff resp.status 200).0 full) in
        rw full (store-Resumes files dest resp (length (or_no_bytes (lookup dest files))) c h.0 h.1)
    | inr b ↦ elim (Bool-cases (resp.status == 206)) [
      | inl part ↦
          let h =
            resumed-Carries (lookup dest files) resp p e ((nat_beq_iff resp.status 206).0 part) in
          subst (Resumes dest c)
            (sym (on_part files dest (length (or_no_bytes (lookup dest files))) resp part))
            (store-Resumes files dest resp (length (or_no_bytes (lookup dest files))) c h.0 h.1)
      | inr b' ↦ rw (b, b') (p, λ d e'. ground arith)
    ]
  ]

  -- From a server that keeps one content under the address, a download leaves a destination that
  -- was missing or held a beginning of the content so, wherever the body breaks off; and if it
  -- returns a result, the destination holds exactly the content.
  pub download-Resumes :
      (limit : ℤ) (dest : String) (files : Files)
      → Partial files dest c
      → Resumes dest c (download_file server limit url dest files)
  unfolding download_file
  download-Resumes limit dest files p = elim (Bool-cases (is_positive limit)) [
    | inl b ↦ rw b (
        subst (λ n. Resumes dest c (on_response files dest n (server url (range_header n))))
          (sym (offset_own (lookup dest files))) (reply-Resumes files dest (server url _) p refl))
    | inr b ↦ rw b (p, λ d e. ground arith)
  ]

-- a file that is complete, where the server refuses the range behind its end
pub refused_range :
    (server : Server) (limit : ℤ) (url dest : String) (files : Files) (x : ℕ) (xs : Bytes)
    (resp : Response)
    → lookup dest files ≡ some (x ∷ xs)
    → server url (some (length (x ∷ xs))) ≡ some resp
    → resp.status ≡ 416
    → download_file server limit url dest files ≡ (none, files)
unfolding download_file on_response
refused_range server limit url dest files x xs resp there e e' =
    elim (Bool-cases (is_positive limit)) [
      | inl b ↦ rw (b, there, range_own x xs, e, e') refl
      | inr b ↦ rw b refl
    ]
