-- ===== src/Downloader/Tests.antt =====
-- Runs of downloads.
use appcenter_agent.Common.{
  ℕ, zero, suc, ◌≡◌, refl, sym, ap, ◌∙◌, subst, false, Option, none, some, [], ◌∷◌, ◌++◌, arith,
  pos, nat_eq, int_eq, string_eq, length,
}
use appcenter_agent.Common.Dict.{lookup, insert}
use appcenter_agent.Common.Text.{trim_right, trim_space, lower_code}
use appcenter_agent.Files.{Bytes}
use mathlib.Core.Option.{some-injective}
use appcenter_agent.Downloader.{on_response, store_body, Response, Server, download_file, base}
use appcenter_agent.Downloader.Resume.{download-Resumes, Keeps, Resumes, Carries}

abbrev reply : ℕ → Bytes → Response
reply status body = record {
  status = status;
  body = body;
  broken = false;
  filename = some " a.msi ";
}

-- the content 1, 2, sent whole, or from the offset that a Range header names
abbrev pub two_bytes : Server
two_bytes url none = some (reply 200 (1 ∷ 2 ∷ []))
two_bytes url (some zero) = some (reply 416 [])
two_bytes url (some (suc zero)) = some (reply 206 (2 ∷ []))
two_bytes url (some (suc (suc n))) = some (reply 416 [])

half_is_finished :
    download_file two_bytes (pos 5) "u" "C:\\dl\\f.bin" (("C:\\dl\\f.bin", 1 ∷ []) ∷ [])
    ≡ (some (record { bytes_written = 1; filename = "a.msi" }), ("C:\\dl\\f.bin", 1 ∷ 2 ∷ []) ∷ [])
unfolding download_file on_response store_body trim_space lookup insert
half_is_finished = refl

base_of_path : base "C:\\dl\\f.bin" ≡ "f.bin"
unfolding trim_right lower_code
base_of_path = refl

clash : (r resp : Response) (n : ℕ) → r ≡ resp → resp.status ≡ n → r.status ≡ n
clash r resp n e e' = ap (λ x. x.status) e ∙ e'

full_case :
    (r : Option ℕ) (resp : Response)
    → two_bytes "u" r ≡ some resp
    → resp.status ≡ 200
    → Carries (1 ∷ 2 ∷ []) resp
full_case none resp e e' =
    subst (Carries (1 ∷ 2 ∷ [])) (some-injective _ _ e) (([], refl), λ b. refl)
full_case (some zero) resp e e' = absurd (omega (arith, clash _ resp 200 (some-injective _ _ e) e'))
full_case (some (suc zero)) resp e e' =
    absurd (omega (arith, clash _ resp 200 (some-injective _ _ e) e'))
full_case (some (suc (suc n))) resp e e' =
    absurd (omega (arith, clash _ resp 200 (some-injective _ _ e) e'))

tails : {d : ℕ} {rest : Bytes} → (d ∷ rest) ≡ 1 ∷ 2 ∷ [] → rest ≡ 2 ∷ []
tails e = cc

part_case :
    (r : Option ℕ) (resp : Response)
    → two_bytes "u" r ≡ some resp
    → resp.status ≡ 206
    → (done rest : Bytes) → r ≡ some (length done)
    → done ++ rest ≡ 1 ∷ 2 ∷ []
    → Carries rest resp
part_case none resp e e' done rest at_ eq = ground arith
part_case (some zero) resp e e' done rest at_ eq =
    absurd (omega (arith, clash _ resp 206 (some-injective _ _ e) e'))
part_case (some (suc zero)) resp e e' [] rest at_ eq = ground arith
part_case (some (suc zero)) resp e e' (d ∷ []) rest at_ eq =
    subst (Carries rest) (some-injective _ _ e) (([], sym (tails eq)), λ b. sym (tails eq))
part_case (some (suc zero)) resp e e' (d ∷ d' ∷ ds) rest at_ eq = ground arith
part_case (some (suc (suc n))) resp e e' done rest at_ eq =
    absurd (omega (arith, clash _ resp 206 (some-injective _ _ e) e'))

two_bytes-Keeps : Keeps two_bytes "u" (1 ∷ 2 ∷ [])
two_bytes-Keeps =
    (full_case, part_case, λ resp e e'. omega (arith, clash _ resp 206 (some-injective _ _ e) e'))

download-Resumes_example :
    Resumes "f" (1 ∷ 2 ∷ []) (download_file two_bytes (pos 5) "u" "f" (("f", 1 ∷ []) ∷ []))
unfolding lookup
download-Resumes_example =
    download-Resumes two_bytes "u" (1 ∷ 2 ∷ []) two_bytes-Keeps (pos 5) "f" (("f", 1 ∷ []) ∷ [])
      (2 ∷ [], refl)
