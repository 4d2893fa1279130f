-- ===== src/Protocol/Pairs.antt =====
-- How the pairs of a line are read back.
use camannex.Base.{
  ℕ, ◌<◌, ◌≡◌, ◌≢◌, refl, ap, ◌∙◌, List, [], ◌∷◌, ◌++◌, Bytes, codes, Bool, true, not, ◌&&◌,
  if◌then◌else◌, arith, All, eq_bytes, ltb,
}
use camannex.Protocol.Boost.{Strings, IsVisible, Plain}
use camannex.Protocol.{Cooler, resolve_kv, set_cooler, resolve_cooler}

visible : (xs : Bytes) → All (λ b. (32 < b) × (b ≢ 61) × (b ≢ 44)) xs → IsVisible xs
visible [] h = tt
visible (x ∷ xs) ((a, _, _), hs) = (a, visible xs hs)

lacks : (xs : Bytes) → All (λ b. (32 < b) × (b ≢ 61) × (b ≢ 44)) xs → All (λ c. c ≢ 61) xs
lacks [] h = tt
lacks (x ∷ xs) ((_, a, _), hs) = (a, lacks xs hs)

abbrev pub pair : Bytes → Bytes → Bytes
pair keyword value = keyword ++ 61 ∷ value

-- No capital letter and nothing below one.
abbrev pub is_lower : Bytes → Bool
is_lower [] = true
is_lower (x ∷ xs) = ltb 90 x && is_lower xs

pub lower : (xs : Bytes) → is_lower xs ≡ true → All (λ c. 90 < c) xs
lower [] h = tt
lower (x ∷ xs) h = (ground arith, lower xs (ground arith))

-- A keyword can stand in a pair.
pub word : (x : ℕ) (xs : Bytes) → is_lower (x ∷ xs) ≡ true → Plain (x ∷ xs)
word x [] h = ((ground arith, (λ i. absurd (ground arith)), (λ i. absurd (ground arith))), tt)
word x (y ∷ ys) h = (
  (ground arith, (λ i. absurd (ground arith)), (λ i. absurd (ground arith))),
  word y ys (ground arith),
)

module _ (st : Strings) where
  open st use {Single, show, atof, show_plain, trim_visible, split_first, split_last, iequals_lower}

  pub resolve_kv-pair : (k v : Bytes) → Plain k → Plain v → resolve_kv st (pair k v) ≡ (true, k, v)
  unfolding resolve_kv
  resolve_kv-pair [] v hk hv = absurd hk
  resolve_kv-pair (x ∷ k) [] hk hv = absurd hv
  resolve_kv-pair (x ∷ k) (y ∷ v) hk hv =
      let first = split_first 61 y (x ∷ k) v (lacks (x ∷ k) hk) (hv.0.1) in
      let last = split_last 61 (y ∷ v) (lacks (y ∷ v) hv) in
      rw
        (
          first ∙ ap (◌∷◌ (x ∷ k)) last,
          trim_visible (x ∷ k) (visible (x ∷ k) hk),
          trim_visible (y ∷ v) (visible (y ∷ v) hv),
        )
        (ground arith)

  -- The ladder on keywords without capital letters.
  set_lower : Bytes → Bytes → Cooler st → Cooler st
  set_lower k v p =
      if eq_bytes k (codes "group_id")
      then record p { gid = v }
      else if eq_bytes k (codes "unit_id")
      then record p { uid = v }
      else if eq_bytes k (codes "cam_id")
      then record p { cid = v }
      else if eq_bytes k (codes "voltage")
      then record p { voltage = atof v }
      else if eq_bytes k (codes "current")
      then record p { current = atof v }
      else if eq_bytes k (codes "hotend")
      then record p { hotend = atof v }
      else if eq_bytes k (codes "coolget")
      then record p { coolget = atof v }
      else if eq_bytes k (codes "coolset")
      then record p { coolset = atof v }
      else if eq_bytes k (codes "time")
      then record p { utc = v }
      else p

  set_cooler_lower :
      (k v : Bytes) (p : Cooler st) → is_lower k ≡ true → set_cooler st k v p ≡ set_lower k v p
  unfolding set_cooler set_lower
  set_cooler_lower k v p h =
      let same : (w : Bytes) → is_lower w ≡ true → st.iequals k w ≡ eq_bytes k w =
        λ w e. iequals_lower k w (lower k h) (lower w e) in
      rw (
        same (codes "group_id") refl,
        same (codes "unit_id") refl,
        same (codes "cam_id") refl,
        same (codes "voltage") refl,
        same (codes "current") refl,
        same (codes "hotend") refl,
        same (codes "coolget") refl,
        same (codes "coolset") refl,
        same (codes "time") refl,
      )

  resolve_cooler_step :
      (t k v : Bytes) (ts : List Bytes) (p : Cooler st)
      → resolve_kv st t ≡ (true, k, v)
      → resolve_cooler st (t ∷ ts) p ≡ resolve_cooler st ts (set_cooler st k v p)
  unfolding resolve_cooler
  resolve_cooler_step t k v ts p e =
      ap
        (λ (r : Bool × Bytes × Bytes).
          resolve_cooler st ts (if not r.0 then p else set_cooler st r.1 r.2 p))
        e

  -- One pair of a line.
  resolve_cooler-pair :
      (k v : Bytes) (ts : List Bytes) (p : Cooler st)
      → Plain k
      → Plain v
      → is_lower k ≡ true
      → resolve_cooler st (pair k v ∷ ts) p ≡ resolve_cooler st ts (set_lower k v p)
  resolve_cooler-pair k v ts p hk hv h =
      resolve_cooler_step (pair k v) k v ts p (resolve_kv-pair k v hk hv)
      ∙ ap (resolve_cooler st ts) (set_cooler_lower k v p h)

  -- The pairs that CompactCooler joins for a proto with a time.
  abbrev pub entries : Cooler st → List (Bytes × Bytes)
  entries p =
      (codes "time", p.utc)
      ∷ (codes "group_id", p.gid)
      ∷ (codes "unit_id", p.uid)
      ∷ (codes "cam_id", p.cid)
      ∷ (codes "voltage", show p.voltage)
      ∷ (codes "current", show p.current)
      ∷ (codes "hotend", show p.hotend)
      ∷ (codes "coolget", show p.coolget)
      ∷ (codes "coolset", show p.coolset)
      ∷ []

  abbrev pub pairs : List (Bytes × Bytes) → List Bytes
  pairs [] = []
  pairs ((k, v) ∷ es) = pair k v ∷ pairs es

  abbrev pub tokens : Cooler st → List Bytes
  tokens p = pairs (entries p)

  set_all : List (Bytes × Bytes) → Cooler st → Cooler st
  set_all [] p = p
  set_all ((k, v) ∷ es) p = set_all es (set_lower k v p)

  resolve_cooler-pairs :
      (es : List (Bytes × Bytes)) (p : Cooler st)
      → All (λ e. Plain e.0 × Plain e.1 × (is_lower e.0 ≡ true)) es
      → resolve_cooler st (pairs es) p ≡ set_all es p
  unfolding set_all resolve_cooler
  resolve_cooler-pairs [] p h = refl
  resolve_cooler-pairs ((k, v) ∷ es) p ((hk, hv, h), hs) =
      resolve_cooler-pair k v (pairs es) p hk hv h ∙ resolve_cooler-pairs es (set_lower k v p) hs

  -- A number as it is after it was written and read.
  abbrev pub shown : Single → Single
  shown x = atof (show x)

  -- The pairs of a proto whose texts can stand in a pair are read back, whatever the proto that is
  -- filled holds before: the texts as they are, and each number as its text denotes it.
  pub resolve_cooler-tokens :
      (p q : Cooler st)
      → Plain p.utc
      → Plain p.gid
      → Plain p.uid
      → Plain p.cid
      → resolve_cooler st (tokens p) q ≡ record p {
        voltage = shown p.voltage;
        current = shown p.current;
        hotend = shown p.hotend;
        coolget = shown p.coolget;
        coolset = shown p.coolset;
      }
  unfolding set_all set_lower
  resolve_cooler-tokens p q utc gid uid cid = resolve_cooler-pairs (entries p) q (
    (word b't' (codes "ime") refl, utc, refl),
    (
      (word b'g' (codes "roup_id") refl, gid, refl),
      (
        (word b'u' (codes "nit_id") refl, uid, refl),
        (
          (word b'c' (codes "am_id") refl, cid, refl),
          (
            (word b'v' (codes "oltage") refl, show_plain p.voltage, refl),
            (
              (word b'c' (codes "urrent") refl, show_plain p.current, refl),
              (
                (word b'h' (codes "otend") refl, show_plain p.hotend, refl),
                (
                  (word b'c' (codes "oolget") refl, show_plain p.coolget, refl),
                  ((word b'c' (codes "oolset") refl, show_plain p.coolset, refl), tt),
                ),
              ),
            ),
          ),
        ),
      ),
    ),
  )
