-- ===== src/Http/Json/RoundTrip.antt =====
-- On internal/httpapi/fastresp.go and internal/model/fastjson.go: a point that the API prints, as the
-- API reads it.
use the_500mb_club_challenge.Prelude.{
  ℕ, ◌^◌, ◌≡◌, refl, ap, ◌∙◌, true, some, Bool-cases, inl, inr, List, [], ◌∷◌, ◌++◌, append_assoc,
  if◌then◌else◌, Bytes, codes, All,
}
use the_500mb_club_challenge.Prelude.Int.{pos, ◌<ℤ◌}
use the_500mb_club_challenge.Golang.Float64.{Float64, abs_float}
use the_500mb_club_challenge.Golang.Strconv.{format_int}
use the_500mb_club_challenge.Model.Point.{Point, IsValid, fields, to_point-fields}
use the_500mb_club_challenge.Model.Scan.Object.{
  Field, lat, lon, battery, ax, ay, az, parse_point, no_fields,
}
use the_500mb_club_challenge.Model.Scan.Number.{IsNumber}
use the_500mb_club_challenge.Model.Scan.Spelled.{
  Entry, IsEntry, entries_text, set_entries, object_text, scan_point_json-object_text,
}
use the_500mb_club_challenge.Model.Scan.Numeral.{positive_cases}
use the_500mb_club_challenge.Http.Json.{
  float_format, append_json_float, append_battery, append_point_json,
}

module _ (format_float : Float64 → ℕ → Bytes) where
  -- A value of magnitude 0, or from 1e-6 to below 1e21, whose digits read back as itself.
  pub record IsPrinted (v : Float64) : Type 0 where
    pub plain : float_format (abs_float v) ≡ b'f'
    pub reads : IsNumber (format_float v b'f') v

  pub record IsPrintedPoint (p : Point) : Type 0 where
    pub lat : IsPrinted p.lat
    pub lon : IsPrinted p.lon
    pub battery : p.has_battery ≡ true → IsPrinted p.battery
    pub ax : IsPrinted p.ax
    pub ay : IsPrinted p.ay
    pub az : IsPrinted p.az

  append_json_float-plain :
      (dst key rest : Bytes) (v : Float64)
      → IsPrinted v
      → append_json_float format_float (dst ++ key) v ++ rest
        ≡ dst ++ (key ++ (format_float v b'f' ++ rest))
  unfolding append_json_float
  append_json_float-plain dst key rest v h =
      rw (append_json_float, h.plain)
        (append_assoc (dst ++ key) (format_float v b'f') rest
          ∙ append_assoc dst key (format_float v b'f' ++ rest))

  entry : Field → Float64 → Entry
  entry f v = (f, (format_float v b'f', v))

  tail_entries : Point → List Entry
  unfolding entry
  tail_entries p = entry ax p.ax ∷ entry ay p.ay ∷ entry az p.az ∷ []

  point_entries : Point → List Entry
  unfolding tail_entries
  point_entries p =
      entry lat p.lat
      ∷ entry lon p.lon
      ∷ (if p.has_battery then entry battery p.battery ∷ tail_entries p else tail_entries p)

  -- The accelerations and the brace, whatever stands before.
  tail-text :
      (dst : Bytes) (p : Point)
      → IsPrintedPoint p
      → append_json_float format_float
            (append_json_float format_float
                (append_json_float format_float (dst ++ codes ",\"ax\":") p.ax ++ codes ",\"ay\":")
                p.ay
              ++ codes ",\"az\":")
            p.az
          ++ b'}' ∷ []
        ≡ dst ++ entries_text (tail_entries p)
  unfolding tail_entries
  tail-text dst p h =
      let ax_dst = append_json_float format_float (dst ++ codes ",\"ax\":") p.ax in
      let ay_dst = append_json_float format_float (ax_dst ++ codes ",\"ay\":") p.ay in
      append_json_float-plain ay_dst (codes ",\"az\":") (b'}' ∷ []) p.az h.az
      ∙ append_json_float-plain ax_dst (codes ",\"ay\":") (entries_text (entry az p.az ∷ [])) p.ay
          h.ay
      ∙ append_json_float-plain dst (codes ",\"ax\":")
          (entries_text (entry ay p.ay ∷ entry az p.az ∷ [])) p.ax h.ax

  battery-text :
      (dst : Bytes) (p : Point)
      → IsPrintedPoint p
      → append_battery format_float dst p ++ entries_text (tail_entries p)
        ≡ dst
          ++ entries_text
              (if p.has_battery then entry battery p.battery ∷ tail_entries p else tail_entries p)
  unfolding append_battery entry tail_entries
  battery-text dst p h = elim (Bool-cases p.has_battery) [
    | inl b ↦
        rw (append_battery, b)
          (append_json_float-plain dst (codes ",\"battery\":") (entries_text (tail_entries p))
            p.battery (h.battery b))
    | inr b ↦ rw (append_battery, b) refl
  ]

  append_point_json-object_text :
      (p : Point) (n : ℕ)
      → p.ts ≡ pos n
      → IsPrintedPoint p
      → append_point_json format_float [] p ≡ object_text n (point_entries p)
  unfolding append_point_json point_entries
  append_point_json-object_text p n e h =
      let ts_dst : Bytes = codes "{\"ts\":" ++ format_int p.ts in
      let lat_dst = append_json_float format_float (ts_dst ++ codes ",\"lat\":") p.lat in
      let lon_dst = append_json_float format_float (lat_dst ++ codes ",\"lon\":") p.lon in
      let rest =
        if p.has_battery then entry battery p.battery ∷ tail_entries p else tail_entries p in
      tail-text (append_battery format_float lon_dst p) p h
      ∙ battery-text lon_dst p h
      ∙ append_json_float-plain lat_dst (codes ",\"lon\":") (entries_text rest) p.lon h.lon
      ∙ append_json_float-plain ts_dst (codes ",\"lat\":") (entries_text (entry lon p.lon ∷ rest))
          p.lat h.lat
      ∙ append_assoc (codes "{\"ts\":") (format_int p.ts) (entries_text (point_entries p))
      ∙ ap (λ t. codes "{\"ts\":" ++ (format_int t ++ entries_text (point_entries p))) e

  point_entries-IsEntry : (p : Point) → IsPrintedPoint p → All IsEntry (point_entries p)
  unfolding point_entries
  point_entries-IsEntry p h = elim (Bool-cases p.has_battery) [
    | inl b ↦ rw b (
      h.lat.reads,
      (h.lon.reads, ((h.battery b).reads, (h.ax.reads, (h.ay.reads, (h.az.reads, tt))))),
    )
    | inr b ↦ rw b (h.lat.reads, (h.lon.reads, (h.ax.reads, (h.ay.reads, (h.az.reads, tt)))))
  ]

  set_entries-fields :
      (p : Point) (n : ℕ)
      → p.ts ≡ pos n
      → set_entries (point_entries p) (record no_fields { ts = some (pos n) }) ≡ fields p
  unfolding point_entries fields
  set_entries-fields p n e = elim (Bool-cases p.has_battery) [
    | inl b ↦ rw (b, e) refl
    | inr b ↦ rw (b, e) refl
  ]

  -- A valid point that the API prints is read back by ParsePoint as the same point, if its
  -- timestamp fits an int64 and each of its floats is 0 or of a magnitude from 1e-6 to below 1e21
  -- and gets from strconv.AppendFloat a number literal that reads back as itself.
  pub parse_point-append_point_json :
      (p : Point)
      → IsValid p
      → p.ts <ℤ pos (2 ^ 63)
      → IsPrintedPoint p
      → parse_point (append_point_json format_float [] p) ≡ some p
  unfolding parse_point
  parse_point-append_point_json p v m h =
      let (n, e, l, k) = positive_cases p.ts v.ts m in
      ap parse_point (append_point_json-object_text p n e h)
      ∙ rw
          (
            scan_point_json-object_text n (point_entries p) l k (point_entries-IsEntry p h),
            set_entries-fields p n e,
          )
          (to_point-fields p v)
