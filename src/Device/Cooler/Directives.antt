-- ===== src/Device/Cooler/Directives.antt =====
-- The directives that CoolerCtl::generate_directive queues for a device.
use camannex.Base.{ℕ, ◌≡◌, ◌<◌, ◌≤◌, refl, [], Bytes, arith, All, map, length, ◌++◌}
use camannex.Frame.Cooler.{read_frame, no_text}
use camannex.Frame.Cooler.RoundTrip.{read_frame-encode_data}
use camannex.Frame.Cooler.Check.{encode_data-fits}
use camannex.Controller.Virtual.{Directive}
use camannex.Device.Cooler.{directive, generate_directive, cooler_monitor}

-- A directive asks the device for the function that it is kept under, and fits its store.
abbrev pub Asks : ℕ → Directive → Type 0
Asks idd d =
    ((rest : Bytes) → read_frame d.len (d.msg ++ rest) ≡ no_text idd d.idf) × (length d.msg ≤ 30)

directive-Asks : (idd idf : ℕ) → idd < 256 → idf < 256 → Asks idd (directive idd idf)
unfolding directive
directive-Asks idd idf hd hf = (
  λ rest. read_frame-encode_data idd idf [] rest hd hf tt,
  omega (arith, (encode_data-fits idd idf []).1),
)

-- For a device whose number is a byte, the queued directives ask for each of the five functions in
-- the order of COOLER_MONITOR, each is the frame of that device and function, and each fits the 30
-- bytes of its store.
pub generate_directive-Asks :
    (idd : ℕ)
    → idd < 256
    → (map (λ d. d.idf) (generate_directive idd) ≡ cooler_monitor)
      × All (Asks idd) (generate_directive idd)
unfolding generate_directive directive
generate_directive-Asks idd h = (
  refl,
  (
    directive-Asks idd 0x22 h (omega arith),
    (
      directive-Asks idd 0x21 h (omega arith),
      (
        directive-Asks idd 0x23 h (omega arith),
        (directive-Asks idd 0x24 h (omega arith), (directive-Asks idd 0x15 h (omega arith), tt)),
      ),
    ),
  ),
)
