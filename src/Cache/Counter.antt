-- ===== src/Cache/Counter.antt =====
-- `incr` of src/uao_qtcam_cache.rs: a decimal counter behind the lossy compression.
use cyan_flame_control_plane.Prelude.{
  ℕ, zero, suc, ◌+◌, ◌/◌, ◌%◌, ◌^◌, ◌<◌, ◌≡◌, refl, ap, arith, Bool, String, eq_iff, Option, none,
  some, List, [], ◌∷◌, ◌++◌, length, replicate, ltb, ◌==◌, if◌then◌else◌, Outcome, ok, err, panic,
}
use cyan_flame_control_plane.Prelude.Decimal.{parse_digits}
use cyan_flame_control_plane.Prelude.Int.{ℤ, pos, negsuc, add_i64}
use cyan_flame_control_plane.Prelude.Dict.{lookup, insert, lookup-insert}
use cyan_flame_control_plane.Cache.{CacheEntry, Cache, compress, decompress, set}
use cyan_flame_control_plane.Cache.Codec.{decompress-compress, compress-ok}

abbrev positive : Option ℕ → Option ℤ
positive none = none
positive (some n) = if ltb n (2 ^ 63) then some (pos n) else none

abbrev negative : Option ℕ → Option ℤ
negative none = none
negative (some zero) = some (pos 0)
negative (some (suc n)) = if ltb n (2 ^ 63) then some (negsuc n) else none

abbrev signed : ℕ → List ℕ → Option ℤ
signed b [] = positive (parse_digits 0 (b ∷ []))
signed b (d ∷ ds) =
    if b == 45
    then negative (parse_digits 0 (d ∷ ds))
    else if b == 43
    then positive (parse_digits 0 (d ∷ ds))
    else positive (parse_digits 0 (b ∷ d ∷ ds))

-- `parse` of an `i64`. A byte that is no part of a text becomes a character that is no digit.
unfoldable pub parse_i64 : List ℕ → Option ℤ
unfolding parse_digits
parse_i64 [] = none
parse_i64 (b ∷ bs) = signed b bs

-- The digits of a number below `10 ^ fuel`.
unfoldable pub digits : ℕ → ℕ → List ℕ
digits zero n = []
digits (suc fuel) n =
    let rest = digits fuel (n / 10) in
    if ltb n 10 then (48 + n) ∷ [] else rest ++ ((48 + n % 10) ∷ [])

-- `to_string` of an `i64`, which has 19 digits at most.
unfoldable pub to_string : ℤ → List ℕ
unfolding digits
to_string (pos n) = digits 20 n
to_string (negsuc n) = 45 ∷ digits 20 (n + 1)

abbrev or_zero : Option ℤ → ℤ
or_zero none = pos 0
or_zero (some n) = n

unfoldable pub next_counter : CacheEntry → ℤ
unfolding parse_i64 decompress add_i64
next_counter e =
    add_i64 (or_zero (parse_i64 (decompress e.compressed_value e.original_size))) (pos 1)

-- The entry with the new counter; neither the size of the cache nor its statistics are touched.
abbrev pub write_counter :
    Cache
    → String
    → CacheEntry
    → List ℕ
    → ℤ
    → ℕ
    → Outcome String (List ℕ)
    → Cache × Outcome String ℤ
write_counter c key e value counter now (ok bytes) = (
  record c {
    entries =
        insert key
          (record e { compressed_value = bytes; original_size = length value; last_accessed = now })
          c.entries;
  },
  ok counter,
)
write_counter c key e value counter now (err x) = (c, err x)
write_counter c key e value counter now panic = (c, panic)

twelve_text : to_string (pos 12) ≡ 49 ∷ 50 ∷ []
unfolding to_string digits
twelve_text = refl

module _ (score_less : CacheEntry → CacheEntry → Bool) where
  abbrev pub first_counter : Cache × Outcome String (Unit {0}) → Cache × Outcome String ℤ
  first_counter (c, ok x) = (c, ok (pos 1))
  first_counter (c, err x) = (c, err x)
  first_counter (c, panic) = (c, panic)

  unfoldable pub incr_found : Cache → String → ℕ → Option CacheEntry → Cache × Outcome String ℤ
  unfolding set next_counter to_string compress
  incr_found c key now none = first_counter (set score_less c key (49 ∷ []) none now)
  incr_found c key now (some e) =
      write_counter c key e (to_string (next_counter e)) (next_counter e) now
        (compress c.compression_ratio (to_string (next_counter e)))

  unfoldable pub incr : Cache → String → ℕ → Cache × Outcome String ℤ
  unfolding incr_found
  incr c key now = incr_found c key now (lookup key c.entries)

  -- The counter was stored with two digits, of which the first is 1.
  pub record ReadsEleven (c : Cache) (key : String) : Type 0 where
    pub entry : CacheEntry
    pub found : lookup key c.entries ≡ some entry
    pub two : entry.original_size ≡ 2
    pub eleven : decompress entry.compressed_value 2 ≡ 49 ∷ 49 ∷ []

  next-twelve : (c : Cache) (key : String) (r : ReadsEleven c key) → next_counter r.entry ≡ pos 12
  unfolding next_counter parse_i64 parse_digits add_i64
  next-twelve c key r = rw (r.two, r.eleven) refl

  incr-ReadsEleven :
      (c : Cache) (key : String) (now : ℕ)
      → 1 < c.compression_ratio
      → ReadsEleven c key
      → ((incr c key now).1 ≡ ok (pos 12))
        × ((incr c key now).0.compression_ratio ≡ c.compression_ratio)
        × ReadsEleven (incr c key now).0 key
  unfolding incr incr_found
  incr-ReadsEleven c key now big r =
      let (bytes, made) = compress-ok c.compression_ratio (49 ∷ 50 ∷ []) (omega arith) in
      let e' : CacheEntry = record r.entry {
        compressed_value = bytes;
        original_size = 2;
        last_accessed = now;
      } in
      rw (r.found, next-twelve c key r, twelve_text, made)
        (
          refl,
          refl,
          record {
            entry = e';
            found = ground (arith, lookup-insert key key e' c.entries, eq_iff key key);
            two = refl;
            eleven = decompress-compress c.compression_ratio 49 (50 ∷ []) bytes (omega arith) made;
          },
        )

  -- The results of a number of calls in a row.
  pub incr_times : ℕ → Cache → String → ℕ → List (Outcome String ℤ)
  incr_times zero c key now = []
  incr_times (suc n) c key now = (incr c key now).1 ∷ incr_times n (incr c key now).0 key now

  -- Once a counter reads as 11, as the text 10 does after its compression, with a ratio of 2 or
  -- more, any number of calls of `incr` in a row all return 12.
  pub incr_times-stuck :
      (n : ℕ) (c : Cache) (key : String) (now : ℕ)
      → 1 < c.compression_ratio
      → ReadsEleven c key
      → incr_times n c key now ≡ replicate n (ok (pos 12))
  unfolding incr_times
  incr_times-stuck zero c key now big r = refl
  incr_times-stuck (suc n) c key now big r =
      let (twelve, same, again) = incr-ReadsEleven c key now big r in
      rw twelve (
        ap (λ rest. ok (pos 12) ∷ rest)
          (incr_times-stuck n (incr c key now).0 key now (omega (arith, same)) again))
