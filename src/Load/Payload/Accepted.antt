-- ===== src/Load/Payload/Accepted.antt =====
-- On stress/load/payload.go and internal/model/fastjson.go: a random point, as the API reads it.
use the_500mb_club_challenge.Prelude.{
  ℕ, ◌^◌, ◌≡◌, refl, ap, ◌∙◌, true, false, some, none, List, [], ◌∷◌, ◌++◌, append_assoc, Bytes,
  codes, All, Option,
}
use the_500mb_club_challenge.Prelude.Int.{pos, ◌<ℤ◌}
use the_500mb_club_challenge.Golang.Float64.{Float64}
use the_500mb_club_challenge.Golang.Strconv.{format_int}
use the_500mb_club_challenge.Model.Point.{Point, IsValid, fields, to_point-fields}
use the_500mb_club_challenge.Model.Scan.Object.{
  lat, lon, battery, ax, ay, az, parse_point, no_fields,
}
use the_500mb_club_challenge.Model.Scan.Number.{IsNumber}
use the_500mb_club_challenge.Model.Scan.Spelled.{
  Entry, IsEntry, entries_text, set_entries, object_text, scan_point_json-object_text,
}
use the_500mb_club_challenge.Model.Scan.Numeral.{positive_cases}
use the_500mb_club_challenge.Load.Payload.{Draw, append_field, append_draw}

module _ (format_six : Float64 → Bytes) where
  -- Each value of the draw is printed as a literal that reads as the value of `p`.
  pub record IsRead (d : Draw) (p : Point) : Type 0 where
    pub ts : d.ts ≡ p.ts
    pub lat : IsNumber (format_six d.lat) p.lat
    pub lon : IsNumber (format_six d.lon) p.lon
    pub ax : IsNumber (format_six d.ax) p.ax
    pub ay : IsNumber (format_six d.ay) p.ay
    pub az : IsNumber (format_six d.az) p.az

  -- The battery is there in both or in neither.
  abbrev pub IsBattery : Option Float64 → Point → Type 0
  IsBattery none p = p.has_battery ≡ false
  IsBattery (some v) p = (p.has_battery ≡ true) × IsNumber (format_six v) p.battery

  append_field-text :
      (b name rest : Bytes) (v : Float64)
      → append_field format_six b name v ++ rest
        ≡ b ++ (codes ",\"" ++ (name ++ (codes "\":" ++ (format_six v ++ rest))))
  unfolding append_field
  append_field-text b name rest v =
      rw (append_assoc b (codes ",\"" ++ (name ++ (codes "\":" ++ format_six v))) rest)
        (ap (λ t. b ++ (codes ",\"" ++ t)) (append_assoc name (codes "\":" ++ format_six v) rest))

  battery_entries : Option Float64 → Point → List Entry
  battery_entries none p = []
  battery_entries (some v) p = (battery, (format_six v, p.battery)) ∷ []

  draw_entries : Draw → Point → List Entry
  unfolding battery_entries
  draw_entries d p =
      (lat, (format_six d.lat, p.lat))
      ∷ (lon, (format_six d.lon, p.lon))
      ∷ (ax, (format_six d.ax, p.ax))
      ∷ (ay, (format_six d.ay, p.ay))
      ∷ (az, (format_six d.az, p.az))
      ∷ battery_entries d.battery p

  battery-text :
      (b : Bytes) (o : Option Float64) (p : Point)
      → (elim o as (λ _. Bytes) [
        | none ↦ b
        | some v ↦ append_field format_six b (codes "battery") v
      ])
          ++ b'}' ∷ []
        ≡ b ++ entries_text (battery_entries o p)
  unfolding battery_entries
  battery-text b none p = refl
  battery-text b (some v) p = append_field-text b (codes "battery") (b'}' ∷ []) v

  append_draw-object_text :
      (d : Draw) (p : Point) (n : ℕ)
      → d.ts ≡ pos n
      → append_draw format_six [] d ≡ object_text n (draw_entries d p)
  unfolding append_draw draw_entries
  append_draw-object_text d p n e =
      let ts_dst : Bytes = codes "{\"ts\":" ++ format_int d.ts in
      let lat_dst = append_field format_six ts_dst (codes "lat") d.lat in
      let lon_dst = append_field format_six lat_dst (codes "lon") d.lon in
      let ax_dst = append_field format_six lon_dst (codes "ax") d.ax in
      let ay_dst = append_field format_six ax_dst (codes "ay") d.ay in
      let az_dst = append_field format_six ay_dst (codes "az") d.az in
      let es = battery_entries d.battery p in
      let es_az : List Entry = (az, (format_six d.az, p.az)) ∷ es in
      let es_ay : List Entry = (ay, (format_six d.ay, p.ay)) ∷ es_az in
      let es_ax : List Entry = (ax, (format_six d.ax, p.ax)) ∷ es_ay in
      let es_lon : List Entry = (lon, (format_six d.lon, p.lon)) ∷ es_ax in
      battery-text az_dst d.battery p
      ∙ append_field-text ay_dst (codes "az") (entries_text es) d.az
      ∙ append_field-text ax_dst (codes "ay") (entries_text es_az) d.ay
      ∙ append_field-text lon_dst (codes "ax") (entries_text es_ay) d.ax
      ∙ append_field-text lat_dst (codes "lon") (entries_text es_ax) d.lon
      ∙ append_field-text ts_dst (codes "lat") (entries_text es_lon) d.lat
      ∙ append_assoc (codes "{\"ts\":") (format_int d.ts) (entries_text (draw_entries d p))
      ∙ ap (λ t. codes "{\"ts\":" ++ (format_int t ++ entries_text (draw_entries d p))) e

  battery-IsEntry :
      (o : Option Float64) (p : Point) → IsBattery o p → All IsEntry (battery_entries o p)
  unfolding battery_entries
  battery-IsEntry none p h = tt
  battery-IsEntry (some v) p (b, h) = (h, tt)

  draw_entries-IsEntry :
      (d : Draw) (p : Point) → IsRead d p → IsBattery d.battery p → All IsEntry (draw_entries d p)
  unfolding draw_entries
  draw_entries-IsEntry d p h b =
      (h.lat, (h.lon, (h.ax, (h.ay, (h.az, battery-IsEntry d.battery p b)))))

  set_entries-fields :
      (d : Draw) (p : Point) (n : ℕ)
      → p.ts ≡ pos n
      → (o : Option Float64) → d.battery ≡ o
      → IsBattery o p
      → set_entries (draw_entries d p) (record no_fields { ts = some (pos n) }) ≡ fields p
  unfolding draw_entries fields
  set_entries-fields d p n e none q b = rw (q, b, e) refl
  set_entries-fields d p n e (some v) q (b, h) = rw (q, b, e) refl

  -- The service accepts what the load generator spells: if every float of a draw is printed with
  -- six digits as a number literal that reads as the value in a valid point, and the timestamps
  -- agree, fit an int64, and the battery is there in both or in neither, then ParsePoint reads the
  -- JSON of the draw as that point.
  pub parse_point-append_draw :
      (d : Draw) (p : Point)
      → IsValid p
      → p.ts <ℤ pos (2 ^ 63)
      → IsRead d p
      → IsBattery d.battery p
      → parse_point (append_draw format_six [] d) ≡ some p
  unfolding parse_point
  parse_point-append_draw d p v m h b =
      let (n, e, l, k) = positive_cases p.ts v.ts m in
      ap parse_point (append_draw-object_text d p n (h.ts ∙ e))
      ∙ rw
          (
            scan_point_json-object_text n (draw_entries d p) l k (draw_entries-IsEntry d p h b),
            set_entries-fields d p n e d.battery refl b,
          )
          (to_point-fields p v)
