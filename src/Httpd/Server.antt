-- ===== src/Httpd/Server.antt =====
-- httpd/server.go: the handlers and `clientIP`, but for `handleHeaders`, which is in Inspector.Groups. A
-- request is what net/http gives the handler; the handler of the inspector is an argument, and the
-- random bytes and `net.SplitHostPort` are given from outside.
use ztna_lab_appliance.Common.{
  ℕ, zero, suc, ◌+◌, ◌-◌, ◌^◌, ◌*◌, ◌≤◌, Bool, true, not, ◌&&◌, ◌||◌, List, [], ◌∷◌, ◌++◌, Option,
  none, some, Text, text, text_eq, trim_prefix, trim_space, split_once, is_empty, decimal, ◌≡◌, ◌≢◌,
  ◌⊎◌, inl, inr, refl, arith, LogCall, if◌then◌else◌, ltb, ◌==◌, ℤ, pos, negsuc, parse_int64,
  length, length-append, Bool-cases,
}

-- A request. The headers are read by name, the first value of each, "" where there is none.
pub record Request : Type 0 where
  pub verb : Text
  pub path : Text
  pub header : Text → Text
  pub remote_addr : Text
  pub user_agent : Text

-- `clientIP`: `split_host_port` is `net.SplitHostPort`, less the port.
unfoldable pub client_ip : (Text → Option Text) → Request → Text
client_ip split_host_port r =
    let forwarded = r.header (text "X-Forwarded-For") in
    let real = r.header (text "X-Real-IP") in
    if not (is_empty forwarded)
    then elim (split_once (text ",") forwarded) [
      | some (first, rest) ↦ trim_space first
      | none ↦ trim_space forwarded
    ]
    else if not (is_empty real)
    then trim_space real
    else elim (split_host_port r.remote_addr) [ none ↦ r.remote_addr | some host ↦ host ]

-- What a handler sends: its status, the headers it sets itself, and the body.
pub record Response : Type 0 where
  pub status : ℕ
  pub headers : List (Text × Text)
  pub body : Text

abbrev pub buffer_size : ℕ
buffer_size = 64 * 1024

abbrev pub max_size : ℕ
max_size = 2 ^ 30

-- The loop of `handleDownload`: `random i n` is the buffer of write number `i`, and `accepts i` says
-- whether that write succeeds. Each round writes at least one byte, so `remaining` is enough fuel.
unfoldable pub write_all : ℕ → (ℕ → ℕ → Text) → (ℕ → Bool) → ℕ → ℕ → Text
write_all zero random accepts i remaining = []
write_all (suc fuel) random accepts i remaining =
    let n = if ltb remaining buffer_size then remaining else buffer_size in
    let rest = write_all fuel random accepts (i + 1) (remaining - n) in
    if remaining == 0 then [] else if accepts i then random i n ++ rest else []

abbrev text_plain : List (Text × Text)
text_plain =
    (text "Content-Type", text "text/plain; charset=utf-8")
    ∷ (text "X-Content-Type-Options", text "nosniff")
    ∷ []

-- `http.Error`
abbrev pub http_error : ℕ → Text → Response
http_error status message = record {
  status = status;
  headers = text_plain;
  body = message ++ 10 ∷ [];
}

abbrev pub size_error : Response
size_error = http_error 400 (text "size must be 1..1073741824 bytes (1 GiB max)")

abbrev download_headers : ℕ → List (Text × Text)
download_headers size =
    (text "Content-Type", text "application/octet-stream")
    ∷ (text "Content-Length", decimal size)
    ∷ (
      text "Content-Disposition",
      text "attachment; filename=\"random-" ++ decimal size ++ text ".bin\"",
    )
    ∷ []

-- `handleDownload` once the size is parsed.
unfoldable pub download : (ℕ → ℕ → Text) → (ℕ → Bool) → Option ℤ → Response
unfolding write_all
download random accepts none = size_error
download random accepts (some (negsuc k)) = size_error
download random accepts (some (pos size)) =
    if size == 0 || ltb max_size size then size_error else record {
      status = 200;
      headers = download_headers size;
      body = write_all size random accepts 0 size;
    }

-- `handleDownload`
unfoldable pub handle_download : (ℕ → ℕ → Text) → (ℕ → Bool) → Request → Response
unfolding download
handle_download random accepts r =
    download random accepts (parse_int64 (trim_prefix r.path (text "/download/")))

-- What reading the body gives: its size, or the error that broke it off.
pub data Upload : Type 0 where
  received : ℕ → Upload
  broken : Text → Upload

-- `handleUpload`; `quoted` is what `%q` prints.
unfoldable pub handle_upload : (Text → Text) → Upload → Request → Response
handle_upload quoted upload r =
    if not (text_eq r.verb (text "POST")) && not (text_eq r.verb (text "PUT"))
    then (let refused = http_error 405 (text "method not allowed") in
        record refused { headers = (text "Allow", text "POST, PUT") ∷ refused.headers })
    else elim upload [
      | broken e ↦ http_error 400 (text "read error: " ++ e)
      | received n ↦ record {
        status = 200;
        headers = (text "Content-Type", text "application/json") ∷ [];
        body =
            text "{\"received_bytes\":"
            ++ decimal n
            ++ text ",\"content_type\":"
            ++ quoted (r.header (text "Content-Type"))
            ++ text "}";
      }
    ]

-- `handleRoot`: the page is what `handleInspector` sends.
unfoldable pub handle_root : (Request → Response) → Request → Response
handle_root inspector r =
    if text_eq r.path (text "/") then inspector r else http_error 404 (text "404 page not found")

-- `handleHealth`
unfoldable pub handle_health : Request → Response
handle_health r = record {
  status = 200;
  headers = (text "Content-Type", text "application/json") ∷ [];
  body = text "{\"status\":\"ok\"}";
}

-- `logMiddleware`: the line written after the handler, `elapsed` its time and `quoted` what `%q` prints.
unfoldable pub request_line : (Text → Option Text) → (Text → Text) → Text → Request → LogCall
unfolding client_ip
request_line split_host_port quoted elapsed r = record {
  module_name = text "HTTP";
  message =
      text "from="
      ++ client_ip split_host_port r
      ++ text "  "
      ++ r.verb
      ++ text " "
      ++ r.path
      ++ text "  ua="
      ++ quoted r.user_agent
      ++ text "  "
      ++ elapsed;
}

length-write_all :
    (fuel : ℕ) (random : ℕ → ℕ → Text) (accepts : ℕ → Bool) (i remaining : ℕ)
    → ((i n : ℕ) → length (random i n) ≡ n)
    → ((i : ℕ) → accepts i ≡ true)
    → remaining ≤ fuel
    → length (write_all fuel random accepts i remaining) ≡ remaining
unfolding write_all
length-write_all zero random accepts i remaining sizes accept h = omega arith
length-write_all (suc fuel) random accepts i remaining sizes accept h =
    let n = if ltb remaining buffer_size then remaining else buffer_size in
    elim (Bool-cases (remaining == 0)) [
      | inl done ↦ rw done (ground arith)
      | inr more ↦
          let rest : length (write_all fuel random accepts (i + 1) (remaining - n))
              ≡ remaining - n =
            length-write_all fuel random accepts (i + 1) (remaining - n) sizes accept
              (ground arith) in
          let le : n ≤ remaining = ground arith in
          rw (more, accept i)
            (omega (
              arith,
              rest,
              le,
              sizes i n,
              length-append (random i n) (write_all fuel random accepts (i + 1) (remaining - n)),
            ))
    ]

-- What a download is to send for the number in its path.
abbrev pub Sends : Option ℤ → Response → Type 0
Sends size? response =
    ((size : ℕ) × (size? ≡ some (pos size))
      × (1 ≤ size)
      × (size ≤ max_size)
      × (response.status ≡ 200)
      × (response.headers ≡ download_headers size)
      × (length response.body ≡ size))
    ⊎ (((size : ℕ) → 1 ≤ size → size ≤ max_size → size? ≢ some (pos size))
        × (response ≡ size_error))

download-Sends :
    (random : ℕ → ℕ → Text) (accepts : ℕ → Bool) (size? : Option ℤ)
    → ((i n : ℕ) → length (random i n) ≡ n)
    → ((i : ℕ) → accepts i ≡ true)
    → Sends size? (download random accepts size?)
unfolding download
download-Sends random accepts none sizes accept = inr (λ size h k e. cc, refl)
download-Sends random accepts (some (negsuc m)) sizes accept = inr (λ size h k e. cc, refl)
download-Sends random accepts (some (pos n)) sizes accept =
    elim (Bool-cases (n == 0 || ltb max_size n)) [
      | inl bad ↦ rw bad (inr (λ size h k e. ground arith, refl))
      | inr good ↦ rw good (
          inl (
            n,
            refl,
            ground arith,
            ground arith,
            refl,
            refl,
            length-write_all n random accepts 0 n sizes accept (omega arith),
          ))
    ]

-- While every write succeeds and every buffer has the length asked for, a download sends exactly as
-- many bytes as the path says, with that size in its headers, if this is a decimal number from 1 to
-- 2^30; for any other path the answer is the error with status 400.
pub handle_download_lem :
    (random : ℕ → ℕ → Text) (accepts : ℕ → Bool) (r : Request)
    → ((i n : ℕ) → length (random i n) ≡ n)
    → ((i : ℕ) → accepts i ≡ true)
    → Sends
        (parse_int64 (trim_prefix r.path (text "/download/")))
        (handle_download random accepts r)
unfolding handle_download
handle_download_lem random accepts r sizes accept =
    download-Sends random accepts (parse_int64 (trim_prefix r.path (text "/download/"))) sizes
      accept
