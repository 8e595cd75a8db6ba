-- ===== src/Http/Writer.antt =====
-- internal/httpapi/handler.go and responses.go: `statusWriter`, and how a handler ends.
use the_500mb_club_challenge.Prelude.{
  ℕ, ◌≡◌, refl, Bool, true, false, Option, none, some, [], ◌++◌, if◌then◌else◌, Bytes, bytes_eq,
  codes, arith,
}

-- `statusWriter` and the `http.ResponseWriter` below it: `header` is its header map, `sent` the
-- status line, once it is sent, and `body` what is written behind it.
pub record Writer : Type 0 where
  pub status : ℕ
  pub wrote : Bool
  pub header : Bytes → Bytes
  pub sent : Option ℕ
  pub body : Bytes

-- `w.Header().Set(key, value)`
unfoldable pub set_header : Bytes → Bytes → Writer → Writer
set_header key value w = record w { header = λ j. if bytes_eq key j then value else w.header j }

-- `net/http` sends the first status line only.
unfoldable pub send_status : Option ℕ → ℕ → Option ℕ
send_status none code = some code
send_status (some old) code = some old

-- `statusWriter.WriteHeader`
unfoldable pub write_header : ℕ → Writer → Writer
unfolding send_status
write_header code w =
    if w.wrote then w else record w { status = code; wrote = true; sent = send_status w.sent code }

-- `statusWriter.Write`
unfoldable pub write_body : Bytes → Writer → Writer
unfolding write_header
write_body b w =
    let v = if w.wrote then w else write_header 200 w in record v { body = v.body ++ b }

-- `writeJSON`, with the encoded value.
unfoldable pub write_json : ℕ → Bytes → Writer → Writer
unfolding set_header write_header write_body
write_json code b w =
    write_body b
      (write_header code (set_header (codes "Content-Type") (codes "application/json") w))

-- `writeJSON` of a value whose encoding may fail: then no body is written.
unfoldable pub write_encoded : ℕ → Option Bytes → Writer → Writer
unfolding set_header write_header write_json
write_encoded code none w =
    write_header code (set_header (codes "Content-Type") (codes "application/json") w)
write_encoded code (some b) w = write_json code b w

-- `&statusWriter{ResponseWriter: w, status: http.StatusOK}` on a response that is not begun.
unfoldable pub fresh : (Bytes → Bytes) → Writer
fresh header = record { status = 200; wrote = false; header = header; sent = none; body = [] }

-- What the wrapper keeps: it knows the status line that is sent, and claims 200 before that.
pub record IsCoherent (w : Writer) : Type 0 where
  pub sent : w.sent ≡ (if w.wrote then some w.status else none)
  pub unsent : w.wrote ≡ false → w.status ≡ 200

pub fresh-IsCoherent : (header : Bytes → Bytes) → IsCoherent (fresh header)
unfolding fresh
fresh-IsCoherent header = record { sent = refl; unsent = λ e. refl }

pub set_header-IsCoherent :
    (key value : Bytes) (w : Writer) → IsCoherent w → IsCoherent (set_header key value w)
unfolding set_header
set_header-IsCoherent key value w h = record { sent = h.sent; unsent = h.unsent }

pub write_header-IsCoherent :
    (code : ℕ) (w : Writer) → IsCoherent w → IsCoherent (write_header code w)
unfolding write_header
write_header-IsCoherent code w h = record {
  sent = ground (arith, h.sent);
  unsent = ground (arith, h.unsent);
}

pub write_header-wrote : (code : ℕ) (w : Writer) → (write_header code w).wrote ≡ true
unfolding write_header
write_header-wrote code w = ground arith

pub write_body-IsCoherent : (b : Bytes) (w : Writer) → IsCoherent w → IsCoherent (write_body b w)
unfolding write_body
write_body-IsCoherent b w h = record {
  sent = ground (arith, h.sent);
  unsent = ground (arith, h.unsent);
}

pub write_json-IsCoherent :
    (code : ℕ) (b : Bytes) (w : Writer) → IsCoherent w → IsCoherent (write_json code b w)
unfolding write_json
write_json-IsCoherent code b w h = write_body-IsCoherent b _ (
    write_header-IsCoherent code _
      (set_header-IsCoherent (codes "Content-Type") (codes "application/json") w h))

pub write_encoded-IsCoherent :
    (code : ℕ) (b : Option Bytes) (w : Writer) → IsCoherent w → IsCoherent (write_encoded code b w)
unfolding write_encoded
write_encoded-IsCoherent code none w h =
    write_header-IsCoherent code _
      (set_header-IsCoherent (codes "Content-Type") (codes "application/json") w h)
write_encoded-IsCoherent code (some b) w h = write_json-IsCoherent code b w h
