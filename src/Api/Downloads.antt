-- ===== src/Api/Downloads.antt =====
-- Files that the client saves: downloadArchive of web/src/api/sources.ts and adminExportSystemConfig of
-- web/src/api/admin.ts. What the browser is handed, by a link that is clicked, is a name and the bytes.
use Prim.Native.String.{String}
use omni_store.Common.{
  ℕ, ◌+◌, Bool, ◌&&◌, ◌||◌, not, Option, none, some, List, [], ◌∷◌, ◌++◌, leb, ◌==◌, if◌then◌else◌,
  if_split, ◌≡◌, ◌≢◌, refl, ap, sym, ◌∙◌, arith, All, Option-cases, inl, inr,
}
use omni_store.Texts.{Text}
use omni_store.Uri.Bytes.{codes}
use omni_store.Api.Json.{Json, null, obj, str, member, or_else}
use omni_store.Api.Client.{
  Method, Response, FetchCall, literal, Outcome, returned, refused, threw, Client, ApiCall,
  api_fetch_blob, api_request_error, ApiRequestError,
}
use omni_store.Api.Sources.{download_archive_call}

-- A character with the case of ASCII letters forgotten.
abbrev pub fold_case : ℕ → ℕ
fold_case c = if leb b'A' c && leb c b'Z' then c + 32 else c

-- The text behind a word, in whatever case it is written.
unfoldable pub behind : Text → Text → Option Text
behind [] s = some s
behind (w ∷ ws) [] = none
behind (w ∷ ws) (c ∷ s) = let rest = behind ws s in if fold_case c == w then rest else none

abbrev pub is_name_unit : ℕ → Bool
is_name_unit c = not (c == 0x22 || c == b';')

unfoldable pub name_prefix : Text → Text
name_prefix [] = []
name_prefix (c ∷ s) = let rest = name_prefix s in if is_name_unit c then c ∷ rest else []

abbrev pub without_quote : Text → Text
without_quote [] = []
without_quote (c ∷ s) = if c == 0x22 then s else c ∷ s

abbrev pub filled : Text → Option Text
filled [] = none
filled (c ∷ s) = some (c ∷ s)

abbrev pub name_in : Option Text → Option Text
name_in none = none
name_in (some s) = filled (name_prefix (without_quote s))

-- The first group of `match(/filename="?([^";]+)"?/i)`.
unfoldable pub match_filename : Text → Option Text
unfolding behind name_prefix
match_filename [] = none
match_filename (c ∷ s) =
    let rest = match_filename s in
    elim (name_in (behind (codes "filename=") (c ∷ s))) [ some n ↦ some n | none ↦ rest ]

abbrev pub name_or : Text → Option Text → Text
name_or d none = d
name_or d (some n) = n

-- `(headers.get('Content-Disposition') ?? '').match(…)?.[1] ?? fallback`.
unfoldable pub file_name : Text → Option Text → Text
unfolding match_filename
file_name fallback none = fallback
file_name fallback (some disposition) = name_or fallback (match_filename disposition)

abbrev pub saved :
    {W : Type 0} → Text → Client W × Outcome Response → Client W × Outcome (Text × List ℕ)
saved fallback (c, returned r) = (c, returned (file_name fallback r.disposition, r.blob))
saved fallback (c, refused e) = (c, refused e)
saved fallback (c, threw) = (c, threw)

module _ {W : Type 0} (fetch : FetchCall → W → W × Option Response) where
  abbrev pub archive : Option ApiCall → Client W → Client W × Outcome (Text × List ℕ)
  archive none c = (c, threw)
  archive (some call) c = saved (codes "omnistore-download.zip") (api_fetch_blob fetch call c)

  unfoldable pub download_archive : Text → List Text → Client W → Client W × Outcome (Text × List ℕ)
  unfolding download_archive_call api_fetch_blob file_name
  download_archive source_key paths c = archive (download_archive_call source_key paths) c

  -- The error of an export: a body that is null or no JSON leaves the general message.
  abbrev pub export_message : Text
  export_message = codes "导出系统配置包失败"

  abbrev pub part_of : String → Json → Json → Json
  part_of k body d = or_else (member k (or_else (member "error" body) null)) d

  abbrev pub export_error : Option Json → ApiRequestError
  export_error none =
      api_request_error
        (obj (("code", str (codes "INTERNAL_ERROR")) ∷ ("message", str export_message) ∷ []))
        (str [])
  export_error (some null) =
      api_request_error
        (obj (("code", str (codes "INTERNAL_ERROR")) ∷ ("message", str export_message) ∷ []))
        (str [])
  export_error (some body) =
      api_request_error
        (obj (
          ("code", part_of "code" body (str (codes "INTERNAL_ERROR")))
          ∷ ("message", part_of "message" body (str export_message))
          ∷ []))
        (or_else (member "request_id" body) (str []))

  abbrev pub exported : Option Response → Outcome (Text × List ℕ)
  exported none = threw
  exported (some r) =
      if r.ok
      then returned (file_name (codes "omnistore-system-config.zip") r.disposition, r.blob)
      else refused (export_error r.json)

  unfoldable pub admin_export_system_config : Client W → Client W × Outcome (Text × List ℕ)
  unfolding file_name member or_else
  admin_export_system_config c =
      let request : FetchCall = record {
        url = codes "/api/v1/admin/system/config-export";
        method = Method.get;
        headers = ("Accept", literal "application/zip") ∷ [];
        body = none;
      } in
      let (w, response) = fetch request c.world in
      (record c { sent = request ∷ c.sent; world = w }, exported response)

-- A name that a file can be saved by: not empty, and without a quote or a semicolon.
abbrev pub IsFileName : Text → Type 0
IsFileName n = (n ≢ []) × All (λ c. (c ≢ 0x22) × (c ≢ b';')) n

prefix-units : (s : Text) → All (λ c. (c ≢ 0x22) × (c ≢ b';')) (name_prefix s)
unfolding name_prefix
prefix-units [] = tt
prefix-units (c ∷ s) =
    if_split (All (λ c. (c ≢ 0x22) × (c ≢ b';'))) (is_name_unit c)
      (λ h. ((λ e. ground (arith, h, e), λ e. ground (arith, h, e)), prefix-units s)) (λ _. tt)

filled-IsFileName : (s n : Text) → filled (name_prefix s) ≡ some n → IsFileName n
filled-IsFileName s n h = of (name_prefix s) n (prefix-units s) h
  where
    of : (t n : Text) → All (λ c. (c ≢ 0x22) × (c ≢ b';')) t → filled t ≡ some n → IsFileName n
    of [] n a h = cc h
    of (c ∷ t) n a h = let e : c ∷ t ≡ n = cc h in rw (sym e) (λ z. cc z, a)

here_or_later :
    (o later : Option Text) (n : Text)
    → (later ≡ some n → IsFileName n)
    → (elim (name_in o) [ some m ↦ some m | none ↦ later ]) ≡ some n
    → IsFileName n
here_or_later none later n f h = f h
here_or_later (some t) later n f h = elim (Option-cases (filled (name_prefix (without_quote t)))) [
  | inl e ↦ f (ground (arith, h, e))
  | inr (m, e) ↦ filled-IsFileName (without_quote t) n (ground (arith, h, e))
]

match-IsFileName : (s n : Text) → match_filename s ≡ some n → IsFileName n
unfolding match_filename
match-IsFileName [] n h = cc h
match-IsFileName (c ∷ s) n h =
    here_or_later (behind (codes "filename=") (c ∷ s)) (match_filename s) n (match-IsFileName s n) h

-- The name that a download is saved by is not empty and has no quote and no semicolon, if the fallback is
-- such a name.
pub file_name-IsFileName :
    (fallback : Text) (disposition : Option Text)
    → IsFileName fallback
    → IsFileName (file_name fallback disposition)
unfolding file_name
file_name-IsFileName fallback none h = h
file_name-IsFileName fallback (some d) h = elim (Option-cases (match_filename d)) [
  | inl e ↦ rw e h
  | inr (n, e) ↦ rw e (match-IsFileName d n e)
]

prefix-append :
    (n rest : Text) → All (λ c. (c ≢ 0x22) × (c ≢ b';')) n → name_prefix (n ++ (0x22 ∷ rest)) ≡ n
unfolding name_prefix
prefix-append [] rest h = refl
prefix-append (c ∷ n) rest h = ground (arith, h.0.0, h.0.1, prefix-append n rest h.1)

filled_lem : (n : Text) → n ≢ [] → filled n ≡ some n
filled_lem [] h = absurd (h refl)
filled_lem (c ∷ n) h = refl

-- A quoted name of an attachment is the name that it is saved by, whatever follows.
pub file_name-quoted :
    (fallback n rest : Text)
    → IsFileName n
    → file_name fallback (some (codes "attachment; filename=\"" ++ (n ++ (0x22 ∷ rest)))) ≡ n
unfolding file_name match_filename behind
file_name-quoted fallback n rest h =
    ap
      (λ t. name_or fallback (elim (filled t) [
        | some m ↦ some m
        | none ↦ match_filename (codes "ilename=\"" ++ (n ++ (0x22 ∷ rest)))
      ]))
      (prefix-append n rest h.1)
    ∙ rw (filled_lem n h.0)
