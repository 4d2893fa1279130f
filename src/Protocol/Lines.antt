-- ===== src/Protocol/Lines.antt =====
-- How the line that CompactCooler makes is read back by Resolve.
use camannex.Base.{
  ◌≤◌, ◌≡◌, ◌≢◌, refl, ap, ◌∙◌, List, [], ◌∷◌, ◌++◌, append_assoc, append-nil, Bytes, codes, true,
  false, some, ltb, ◌==◌, arith, All, length, get_or, get_or-set,
}
use camannex.Protocol.Boost.{Strings, Plain}
use camannex.Protocol.{
  Output, Cooler, line_of, stored, output_compacted, join_kv, cooler_text, compact_cooler,
  new_cooler, resolve_cooler, read_type, skip_spaces, a_cooler, resolve,
}
use camannex.Protocol.Pairs.{pair, pairs, shown, resolve_cooler-tokens, word, lower}
use camannex.Protocol.Slots.{Stores}

-- Further pairs of a line, each behind a comma.
abbrev after : List (Bytes × Bytes) → Bytes
after [] = []
after ((k, v) ∷ es) = 44 ∷ (pair k v ++ after es)

not_empty : (xs : Bytes) → Plain xs → (length xs == 0) ≡ false
not_empty [] h = absurd h
not_empty (x ∷ xs) h = ground arith

lacks_comma : (xs : Bytes) → Plain xs → All (λ c. c ≢ 44) xs
lacks_comma [] h = tt
lacks_comma (x ∷ []) ((_, _, a), hs) = (a, tt)
lacks_comma (x ∷ y ∷ xs) ((_, _, a), hs) = (a, lacks_comma (y ∷ xs) hs)

pair_lacks_comma :
    (k v : Bytes) → All (λ c. c ≢ 44) k → All (λ c. c ≢ 44) v → All (λ c. c ≢ 44) (pair k v)
pair_lacks_comma [] v hk hv = ((λ i. absurd (ground arith)), hv)
pair_lacks_comma (x ∷ k) v (h, hk) hv = (h, pair_lacks_comma k v hk hv)

module _ (st : Strings) where
  open st use {Single, show, split, split_first, split_last, trim_end_comma, show_plain, show_end}

  abbrev ArePlain : List (Bytes × Bytes) → Type 0
  ArePlain = All (λ e. Plain e.0 × Plain e.1)

  split-after :
      (k v : Bytes) (es : List (Bytes × Bytes))
      → Plain k
      → Plain v
      → ArePlain es
      → split 44 (pair k v ++ after es) ≡ pair k v ∷ pairs st es
  split-after k v [] hk hv hs =
      rw append-nil
        (split_last 44 (pair k v) (pair_lacks_comma k v (lacks_comma k hk) (lacks_comma v hv)))
  split-after k v (([], v') ∷ es) hk hv ((hk', hv'), hs) = absurd hk'
  split-after k v ((x ∷ k', v') ∷ es) hk hv ((hk', hv'), hs) =
      split_first 44 x (pair k v) ((k' ++ 61 ∷ v') ++ after es)
        (pair_lacks_comma k v (lacks_comma k hk) (lacks_comma v hv)) (lacks_comma (x ∷ k') hk').0
      ∙ ap (◌∷◌ (pair k v)) (split-after (x ∷ k') v' es hk' hv' hs)

  -- The pairs of a proto behind the time.
  abbrev behind : Cooler st → List (Bytes × Bytes)
  behind p =
      (codes "group_id", p.gid)
      ∷ (codes "unit_id", p.uid)
      ∷ (codes "cam_id", p.cid)
      ∷ (codes "voltage", show p.voltage)
      ∷ (codes "current", show p.current)
      ∷ (codes "hotend", show p.hotend)
      ∷ (codes "coolget", show p.coolget)
      ∷ (codes "coolset", show p.coolset)
      ∷ []

  -- What is left of the line when trim_right_if has taken its last comma.
  abbrev trimmed : Cooler st → Bytes
  trimmed p = codes "cooler " ++ (pair (codes "time") p.utc ++ after (behind p))

  -- The same up to the last value.
  abbrev front : Cooler st → Bytes
  front p =
      codes "cooler time="
      ++ p.utc
      ++ codes ",group_id="
      ++ p.gid
      ++ codes ",unit_id="
      ++ p.uid
      ++ codes ",cam_id="
      ++ p.cid
      ++ codes ",voltage="
      ++ show p.voltage
      ++ codes ",current="
      ++ show p.current
      ++ codes ",hotend="
      ++ show p.hotend
      ++ codes ",coolget="
      ++ show p.coolget
      ++ codes ",coolset="

  trimmed-front : (p : Cooler st) → front p ++ show p.coolset ≡ trimmed p
  trimmed-front p = simp (append_assoc, append-nil)

  cooler_text-front :
      (p : Cooler st) → Plain p.utc → cooler_text st p ≡ front p ++ show p.coolset ++ 44 ∷ []
  unfolding cooler_text join_kv
  cooler_text-front p h = rw (not_empty p.utc h) (simp append_assoc)

  trim_end-cooler_text : (p : Cooler st) → Plain p.utc → st.trim_end (cooler_text st p) ≡ trimmed p
  trim_end-cooler_text p h =
      ap st.trim_end (cooler_text-front p h)
      ∙ (trim_end_comma (front p) (show p.coolset) (show_end p.coolset) ∙ trimmed-front p)

  behind-ArePlain : (p : Cooler st) → Plain p.gid → Plain p.uid → Plain p.cid → ArePlain (behind p)
  behind-ArePlain p gid uid cid = (
    (word b'g' (codes "roup_id") refl, gid),
    (
      (word b'u' (codes "nit_id") refl, uid),
      (
        (word b'c' (codes "am_id") refl, cid),
        (
          (word b'v' (codes "oltage") refl, show_plain p.voltage),
          (
            (word b'c' (codes "urrent") refl, show_plain p.current),
            (
              (word b'h' (codes "otend") refl, show_plain p.hotend),
              (
                (word b'c' (codes "oolget") refl, show_plain p.coolget),
                ((word b'c' (codes "oolset") refl, show_plain p.coolset), tt),
              ),
            ),
          ),
        ),
      ),
    ),
  )

  -- The proto with its numbers as their texts denote them.
  abbrev pub shown_cooler : Cooler st → Cooler st
  shown_cooler p = record p {
    voltage = shown st p.voltage;
    current = shown st p.current;
    hotend = shown st p.hotend;
    coolget = shown st p.coolget;
    coolset = shown st p.coolset;
  }

  resolve-trimmed :
      (p : Cooler st)
      → Plain p.utc
      → Plain p.gid
      → Plain p.uid
      → Plain p.cid
      → resolve st (trimmed p) ≡ a_cooler (shown_cooler p)
  unfolding resolve read_type skip_spaces
  resolve-trimmed p utc gid uid cid =
      let same : st.iequals (codes "cooler") (codes "cooler") ≡ true =
        st.iequals_lower (codes "cooler") (codes "cooler") (lower (codes "cooler") refl)
          (lower (codes "cooler") refl) in
      let read =
        split-after (codes "time") p.utc (behind p) (word b't' (codes "ime") refl) utc
          (behind-ArePlain p gid uid cid) in
      rw same (
        ap a_cooler (
          ap (λ ts. resolve_cooler st ts (new_cooler st)) read
          ∙ resolve_cooler-tokens st p (new_cooler st) utc gid uid cid))

  -- A proto with a time whose texts are not empty and have no space, no = and no comma, and whose line
  -- has room in its store: CompactCooler leaves a line in the store that it returns, and Resolve reads it
  -- back, up to its line feed, as the proto, with each number as its text denotes it.
  pub resolve-compact_cooler :
      (p : Cooler st) (s : Output)
      → Plain p.utc
      → Plain p.gid
      → Plain p.uid
      → Plain p.cid
      → length (line_of st (cooler_text st p)) ≤ 1024
      → Stores st s
      → (s' : Output) × (line : Bytes) × (compact_cooler st (some p) s ≡ some (some s.ibuf, s'))
        × (get_or s'.buff s.ibuf [] ≡ line ++ 10 ∷ 0 ∷ [])
        × (resolve st line ≡ a_cooler (shown_cooler p))
  unfolding compact_cooler output_compacted stored
  resolve-compact_cooler p s utc gid uid cid short (b, size) =
      let text = cooler_text st p in
      let fits : ltb 1024 (length (line_of st text)) ≡ false = ground arith in
      (
        stored st text s,
        trimmed p,
        rw fits refl,
        ground (arith, get_or-set s.buff s.ibuf s.ibuf (line_of st text) [])
            ∙ ap (λ l. l ++ 10 ∷ 0 ∷ []) (trim_end-cooler_text p utc),
        resolve-trimmed p utc gid uid cid,
      )
