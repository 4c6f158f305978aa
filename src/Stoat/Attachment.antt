-- ===== src/Stoat/Attachment.antt =====
-- internal/stoat/attachment.go: the download of an attachment and its upload to Autumn. net/http, net/url
-- and the upload of the revolt library are parameters; a body is a list of bytes.
use luars_stoatcord.Prelude.{
  ℕ, zero, suc, ◌+◌, ◌*◌, ◌≡◌, ◌≤◌, ◌<◌, refl, ap, String, Bool, false, not, Option, none, some,
  List, [], ◌∷◌, length, nat_eq, ltb, ltb→le, if◌then◌else◌, arith, Bool-cases, inl, inr,
}
use native.Mathlib.Numerals.{add-one}
use luars_stoatcord.Canonical.Result.{Result, ok, err, failed, ◌>>=◌}

-- maxDownloadBytes
abbrev pub max_download_bytes : ℕ
max_download_bytes = 20 * 1024 * 1024

-- An http.Response: its status code, its body, and whether reading the body fails.
pub record Response : Type 0 where
  pub status : ℕ
  pub body : List ℕ
  pub read_fails : Bool

-- The bytes that io.LimitReader lets through.
unfoldable pub take : ℕ → List ℕ → List ℕ
take zero xs = []
take (suc n) [] = []
take (suc n) (x ∷ xs) = x ∷ take n xs

abbrev pub within_limit : ℕ → List ℕ → Result (List ℕ)
within_limit limit read =
    if ltb limit (length read) then err (failed "stoat: download exceeds the limit") else ok read

-- downloadLimited, of what the request returns
unfoldable pub download_limited : ℕ → Result Response → Result (List ℕ)
download_limited limit answer = do
  r ← answer
  if not (nat_eq r.status 200)
      then err (failed "stoat: unexpected status")
      else if r.read_fails
      then err (failed "stoat: read download body")
      else within_limit limit (take (limit + 1) r.body)

-- filenameFromURL: `parse` is the path that url.Parse finds, and `base` is path.Base
unfoldable pub filename_from_url :
    (parse : String → Option String) (base : String → String) → String → String
filename_from_url parse base raw_url = elim (parse raw_url) [
  | none ↦ base raw_url
  | some p ↦ base p
]

-- UploadFromURL
unfoldable pub upload_downloaded :
    (get : String → Result Response) (name_of : String → String)
    (upload : String → String → List ℕ → Result String)
    → String
    → String
    → Result String
upload_downloaded get name_of upload tag raw_url = do
  bytes ← download_limited max_download_bytes (get raw_url)
  upload tag (name_of raw_url) bytes

take_short : (n : ℕ) (xs : List ℕ) → length (take (suc n) xs) ≤ n → take (suc n) xs ≡ xs
unfolding take
take_short n [] h = refl
take_short zero (x ∷ xs) h = absurd (omega arith)
take_short (suc n) (x ∷ xs) h = ap (λ ys. x ∷ ys) (take_short n xs (omega arith))

take_long : (n : ℕ) (xs : List ℕ) → n < length (take (suc n) xs) → n < length xs
unfolding take
take_long n [] h = h
take_long zero (x ∷ xs) h = omega arith
take_long (suc n) (x ∷ xs) h = omega (arith, take_long n xs (omega arith))

-- The outcome of a download with a status of 200 and a body that can be read.
abbrev pub Whole : ℕ → List ℕ → Result (List ℕ) → Type 0
Whole limit body (ok read) = (read ≡ body) × (length body ≤ limit)
Whole limit body (err e) = limit < length body

within_limit-Whole :
    (limit : ℕ) (body : List ℕ) → Whole limit body (within_limit limit (take (suc limit) body))
within_limit-Whole limit body = elim (Bool-cases (ltb limit (length (take (suc limit) body)))) [
  | inl e ↦ rw e (take_long limit body (ground arith))
  | inr e ↦
      let whole = take_short limit body (ground arith) in
      rw e (whole, omega (arith, ap length whole, ltb→le _ _ e))
]

-- Of a response of status 200 whose body can be read, the whole body is downloaded if it is within
-- the limit, and else nothing: it is never truncated.
pub download_limited-Whole :
    (limit : ℕ) (r : Response)
    → r.status ≡ 200
    → r.read_fails ≡ false
    → Whole limit r.body (download_limited limit (ok r))
unfolding download_limited
download_limited-Whole limit r s f = rw (s, f, add-one) (within_limit-Whole limit r.body)
