-- ===== src/Model/Scan/Spelled.antt =====
-- On internal/model/fastjson.go: the objects that are spelled as encoders spell them.
use the_500mb_club_challenge.Model.Scan.Numeral.{scan_number_literal-format_int}
use the_500mb_club_challenge.Prelude.{
  ◌^◌, ◌<◌, length-append, ℕ, zero, suc, ◌≤◌, ◌≡◌, refl, ◌∙◌, none, some, List, [], ◌∷◌, ◌++◌,
  Bytes, codes, arith, length, All,
}
use the_500mb_club_challenge.Prelude.Int.{pos}
use the_500mb_club_challenge.Golang.Strconv.{parse_int-format_int, format_int}
use the_500mb_club_challenge.Golang.Float64.{Float64}
use the_500mb_club_challenge.Model.Point.{PointJson}
use the_500mb_club_challenge.Model.Scan.{skip_ws, trailing_only_ws, read_key, string_loop}
use the_500mb_club_challenge.Model.Scan.Object.{
  no_fields, scan_point_json, eq_fold_ascii, Field, ts, lat, lon, battery, ax, ay, az, unknown,
  store_field, field_name, read_field, expect, read_member, member_loop,
}
use the_500mb_club_challenge.Model.Scan.Stop.{IsStop}
use the_500mb_club_challenge.Model.Scan.Number.{
  IsNumber, comma-IsStop, brace-IsStop, read_float-stop, read_int-stop,
}

-- The key of a field, with its colon.
abbrev pub key_text : Field → Bytes
key_text ts = codes "\"ts\":"
key_text lat = codes "\"lat\":"
key_text lon = codes "\"lon\":"
key_text battery = codes "\"battery\":"
key_text ax = codes "\"ax\":"
key_text ay = codes "\"ay\":"
key_text az = codes "\"az\":"
key_text unknown = codes "\"\":"

read_member-key :
    (f : Field) (s : Bytes) (pj : PointJson)
    → read_member (key_text f ++ s) pj ≡ store_field f (skip_ws s) pj
unfolding read_member skip_ws read_key string_loop expect read_field field_name eq_fold_ascii
read_member-key ts s pj = refl
read_member-key lat s pj = refl
read_member-key lon s pj = refl
read_member-key battery s pj = refl
read_member-key ax s pj = refl
read_member-key ay s pj = refl
read_member-key az s pj = refl
read_member-key unknown s pj = refl

-- A float field, what spells it, and its value.
abbrev pub Entry : Type 0
Entry = Field × (Bytes × Float64)

abbrev pub IsEntry : Entry → Type 0
IsEntry (ts, e) = ⊥
IsEntry (unknown, e) = ⊥
IsEntry (lat, (lit, v)) = IsNumber lit v
IsEntry (lon, (lit, v)) = IsNumber lit v
IsEntry (battery, (lit, v)) = IsNumber lit v
IsEntry (ax, (lit, v)) = IsNumber lit v
IsEntry (ay, (lit, v)) = IsNumber lit v
IsEntry (az, (lit, v)) = IsNumber lit v

abbrev pub set_entry : Entry → PointJson → PointJson
set_entry (ts, e) pj = pj
set_entry (unknown, e) pj = pj
set_entry (lat, (lit, v)) pj = record pj { lat = some v }
set_entry (lon, (lit, v)) pj = record pj { lon = some v }
set_entry (battery, (lit, v)) pj = record pj { battery = some v }
set_entry (ax, (lit, v)) pj = record pj { ax = some v }
set_entry (ay, (lit, v)) pj = record pj { ay = some v }
set_entry (az, (lit, v)) pj = record pj { az = some v }

-- Members behind the first, and the closing brace.
abbrev pub entries_text : List Entry → Bytes
entries_text [] = b'}' ∷ []
entries_text ((f, (lit, v)) ∷ es) = b',' ∷ (key_text f ++ (lit ++ entries_text es))

abbrev pub set_entries : List Entry → PointJson → PointJson
set_entries [] pj = pj
set_entries (e ∷ es) pj = set_entries es (set_entry e pj)

read_member-entry :
    (f : Field) (lit : Bytes) (v : Float64) (c : ℕ) (rest : Bytes) (pj : PointJson)
    → (stop : IsStop c) → IsEntry (f, (lit, v))
    → read_member (key_text f ++ (lit ++ c ∷ rest)) pj ≡ some (set_entry (f, (lit, v)) pj, c ∷ rest)
unfolding store_field
read_member-entry ts lit v c rest pj stop h = absurd h
read_member-entry unknown lit v c rest pj stop h = absurd h
read_member-entry lat lit v c rest pj stop h =
    read_member-key lat (lit ++ c ∷ rest) pj ∙ rw (read_float-stop c rest stop pj.lat lit v h) refl
read_member-entry lon lit v c rest pj stop h =
    read_member-key lon (lit ++ c ∷ rest) pj ∙ rw (read_float-stop c rest stop pj.lon lit v h) refl
read_member-entry battery lit v c rest pj stop h =
    read_member-key battery (lit ++ c ∷ rest) pj
    ∙ rw (read_float-stop c rest stop pj.battery lit v h) refl
read_member-entry ax lit v c rest pj stop h =
    read_member-key ax (lit ++ c ∷ rest) pj ∙ rw (read_float-stop c rest stop pj.ax lit v h) refl
read_member-entry ay lit v c rest pj stop h =
    read_member-key ay (lit ++ c ∷ rest) pj ∙ rw (read_float-stop c rest stop pj.ay lit v h) refl
read_member-entry az lit v c rest pj stop h =
    read_member-key az (lit ++ c ∷ rest) pj ∙ rw (read_float-stop c rest stop pj.az lit v h) refl

-- What stands behind a member is a comma or the brace.
entries_text-IsStop :
    (es : List Entry) → (c : ℕ) × (rest : Bytes) × (entries_text es ≡ c ∷ rest) × IsStop c
entries_text-IsStop [] = (b'}', [], refl, brace-IsStop)
entries_text-IsStop ((f, (lit, v)) ∷ es) =
    (b',', key_text f ++ (lit ++ entries_text es), refl, comma-IsStop)

read_member-entries :
    (f : Field) (lit : Bytes) (v : Float64) (es : List Entry) (pj : PointJson)
    → IsEntry (f, (lit, v))
    → read_member (key_text f ++ (lit ++ entries_text es)) pj
      ≡ some (set_entry (f, (lit, v)) pj, entries_text es)
read_member-entries f lit v es pj h =
    let (c, rest, e, stop) = entries_text-IsStop es in
    rw e (read_member-entry f lit v c rest pj stop h)

member_loop-entries :
    (fuel : ℕ) (es : List Entry) (s : Bytes) (pj pj' : PointJson)
    → length es ≤ fuel
    → All IsEntry es
    → read_member s pj ≡ some (pj', entries_text es)
    → member_loop (suc fuel) pj s ≡ some (set_entries es pj')
unfolding member_loop skip_ws trailing_only_ws
member_loop-entries fuel [] s pj pj' le h e = rw (member_loop, e) refl
member_loop-entries zero ((f, (lit, v)) ∷ es) s pj pj' le h e = absurd (omega (arith, le))
member_loop-entries (suc fuel) ((f, (lit, v)) ∷ es) s pj pj' le (h, hs) e =
    rw (member_loop, e)
      (member_loop-entries fuel es (key_text f ++ (lit ++ entries_text es)) pj'
        (set_entry (f, (lit, v)) pj') (omega (arith, le)) hs (read_member-entries f lit v es pj' h))

-- An object with a positive timestamp and then the floats.
abbrev pub object_text : ℕ → List Entry → Bytes
object_text n es = codes "{\"ts\":" ++ (format_int (pos n) ++ entries_text es)

length-entries_text : (es : List Entry) → length es ≤ length (entries_text es)
length-entries_text [] = omega arith
length-entries_text ((f, (lit, v)) ∷ es) = omega (
  arith,
  length-entries_text es,
  length-append (key_text f) (lit ++ entries_text es),
  length-append lit (entries_text es),
)

scan_point_json-brace :
    (s : Bytes)
    → scan_point_json (b'{' ∷ b'"' ∷ s) ≡ member_loop (suc (length s)) no_fields (b'"' ∷ s)
unfolding scan_point_json skip_ws expect
scan_point_json-brace s = refl

read_member-ts :
    (n : ℕ) (es : List Entry)
    → 1 ≤ n
    → n < 2 ^ 63
    → read_member (key_text ts ++ (format_int (pos n) ++ entries_text es)) no_fields
      ≡ some (record no_fields { ts = some (pos n) }, entries_text es)
unfolding store_field
read_member-ts n es l h =
    let (c, rest, e, stop) = entries_text-IsStop es in
    rw e (
      read_member-key ts (format_int (pos n) ++ c ∷ rest) no_fields
      ∙ rw
          (read_int-stop c rest stop none (format_int (pos n)) (pos n)
            (scan_number_literal-format_int n l (omega (arith, h)))
            (parse_int-format_int (pos n) (omega (arith, h))))
          refl)

-- Such an object is read into its fields.
pub scan_point_json-object_text :
    (n : ℕ) (es : List Entry)
    → 1 ≤ n
    → n < 2 ^ 63
    → All IsEntry es
    → scan_point_json (object_text n es)
      ≡ some (set_entries es (record no_fields { ts = some (pos n) }))
scan_point_json-object_text n es l h hs =
    let text : Bytes = format_int (pos n) ++ entries_text es in
    scan_point_json-brace (codes "ts\":" ++ text)
    ∙ member_loop-entries (length (codes "ts\":" ++ text)) es (key_text ts ++ text) no_fields
        (record no_fields { ts = some (pos n) })
        (omega (
          arith,
          length-entries_text es,
          length-append (codes "ts\":") text,
          length-append (format_int (pos n)) (entries_text es),
        ))
        hs (read_member-ts n es l h)
