-- ===== src/Numeric/Sphere.antt =====
-- The coordinates on the sphere of src/AMath.cpp, over a double and the functions of <math.h>.
use camannex.Base.{◌&&◌, if◌then◌else◌}
use camannex.Base.Int.{pos}
use camannex.Base.Real.{Real, Libm}
use camannex.Numeric.Interpolation.{fabs}

-- The fields `x, y, z` that the functions write through references.
pub record Vector (R : Type 0) : Type 0 where
  pub x : R
  pub y : R
  pub z : R

-- A place in spherical coordinates
pub record Place (R : Type 0) : Type 0 where
  pub r : R
  pub alpha : R
  pub beta : R

module _ (real : Real) (libm : Libm real.R) where
  open real use {R, add, sub, mul, div, neg, of_int, literal, ltb as lt, leb as le}
  open libm use {sin, cos, acos, atan, atan2, sqrt}

  -- API, A2PI and AEPS of src/ADefine.h
  abbrev pub api : R
  api = literal 3141592653589793238462643 24

  abbrev a2pi : R
  a2pi = literal 6283185307179586476925287 24

  abbrev aeps : R
  aeps = literal 1 6

  unfoldable pub sphere_range : (alpha1 beta1 alpha2 beta2 : R) → R
  sphere_range alpha1 beta1 alpha2 beta2 = acos (
      add (mul (mul (cos beta1) (cos beta2)) (cos (sub alpha1 alpha2)))
        (mul (sin beta1) (sin beta2)))

  unfoldable pub sphere2cart : Place R → Vector R
  sphere2cart p = record {
    x = mul (mul p.r (cos p.beta)) (cos p.alpha);
    y = mul (mul p.r (cos p.beta)) (sin p.alpha);
    z = mul p.r (sin p.beta);
  }

  unfoldable pub cart2sphere : Vector R → Place R
  cart2sphere v =
      let angle = atan2 v.y v.x in
      let turned = if lt angle (of_int (pos 0)) then add angle a2pi else angle in
      record {
        r = sqrt (add (add (mul v.x v.x) (mul v.y v.y)) (mul v.z v.z));
        alpha =
            if lt (fabs real v.y) aeps && lt (fabs real v.x) aeps then of_int (pos 0) else turned;
        beta = atan2 v.z (sqrt (add (mul v.x v.x) (mul v.y v.y)));
      }

  unfoldable pub rot_x : R → Vector R → Vector R
  rot_x fai v =
      let cf = cos fai in
      let sf = sin fai in
      record v { y = add (mul cf v.y) (mul sf v.z); z = add (mul (neg sf) v.y) (mul cf v.z) }

  unfoldable pub rot_y : R → Vector R → Vector R
  rot_y fai v =
      let cf = cos fai in
      let sf = sin fai in
      record v { x = sub (mul cf v.x) (mul sf v.z); z = add (mul sf v.x) (mul cf v.z) }

  unfoldable pub rot_z : R → Vector R → Vector R
  rot_z fai v =
      let cf = cos fai in
      let sf = sin fai in
      record v { x = add (mul cf v.x) (mul sf v.y); y = add (mul (neg sf) v.x) (mul cf v.y) }

  -- The two rotations of RotateForward, and of RotateReverse.
  unfoldable pub turn_forward : (a0 d0 : R) → Vector R → Vector R
  turn_forward a0 d0 v = rot_y (sub (mul api (literal 5 1)) d0) (rot_z a0 v)

  unfoldable pub turn_reverse : (a0 d0 : R) → Vector R → Vector R
  turn_reverse a0 d0 v = rot_z (neg a0) (rot_y (add (mul (neg api) (literal 5 1)) d0) v)

  -- RotateForward and RotateReverse: the two angles that they write.
  unfoldable pub rotate_forward : (a0 d0 a d : R) → R × R
  rotate_forward a0 d0 a d =
      let one = of_int (pos 1) in
      let p =
        cart2sphere (turn_forward a0 d0 (sphere2cart (record { r = one; alpha = a; beta = d }))) in
      (p.alpha, p.beta)

  unfoldable pub rotate_reverse : (a0 d0 xi eta : R) → R × R
  rotate_reverse a0 d0 xi eta =
      let one = of_int (pos 1) in
      let p =
        cart2sphere
          (turn_reverse a0 d0 (sphere2cart (record { r = one; alpha = xi; beta = eta }))) in
      (p.alpha, p.beta)

  unfoldable pub project_forward : (a0 d0 a d : R) → R × R
  project_forward a0 d0 a d =
      let fract = add (mul (sin d0) (sin d)) (mul (mul (cos d0) (cos d)) (cos (sub a a0))) in
      (
        div (mul (cos d) (sin (sub a a0))) fract,
        div (sub (mul (cos d0) (sin d)) (mul (mul (sin d0) (cos d)) (cos (sub a a0)))) fract,
      )

  unfoldable pub project_reverse : (a0 d0 ksi eta : R) → R × R
  project_reverse a0 d0 ksi eta =
      let fract = sub (cos d0) (mul eta (sin d0)) in
      let a = add a0 (atan2 ksi fract) in
      let d = atan (div (mul (add (mul eta (cos d0)) (sin d0)) (cos (sub a a0))) fract) in
      (if lt a (of_int (pos 0)) then add a a2pi else if le a2pi a then sub a a2pi else a, d)
