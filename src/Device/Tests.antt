-- ===== src/Device/Tests.antt =====
-- Runs of a controller of coolers, on a list as its buffer and with numbers for floating point.
use camannex.Base.{
  ℕ, ◌≡◌, refl, List, [], ◌∷◌, ◌++◌, Bytes, Bool, true, false, not, ◌==◌, none, some, codes, arith,
  drop, length, length-append, take-length, ap,
}
use camannex.Base.Int.{pos}
use camannex.Buffer.ListBuffer.{list_buffer}
use camannex.Serial.{Serial, read}
use camannex.Controller.Link.{Link}
use camannex.Controller.Virtual.{Directive}
use camannex.Controller.Line.{Controller, handle_frame}
use camannex.Controller.Rounds.{respond_all, Answered, respond_all-Answered}
use camannex.Frame.Cooler.OnLine.{frame, body, frame-body, length-body}
use camannex.Device.Float.{Float, c_str}
use camannex.Device.Records.{update_device}
use camannex.Device.Cooler.{CoolerData, numbered, store, cooler, directive}
use camannex.Device.Cooler.Replies.{handle_frame-reply}

-- Floating point by natural numbers; the value of a text is its length.
abbrev pub counted : Float
counted = record { Double = ℕ; zero_value = 0; ne = λ a b. not (a == b); atof = length }

abbrev pub reading : ℕ → Bool → CoolerData ℕ
reading n changed = record {
  dirty = changed;
  idd = n;
  vol = 0;
  cur = 0;
  thot = 0;
  coolset = 0;
  coolget = 0;
}

abbrev link : Link ℕ
link = record {
  portname = codes "com1";
  grpid = codes "001";
  all_dev = 1 ∷ 2 ∷ [];
  tcp = some 7;
  db = none;
}

abbrev port : Serial list_buffer
port = record {
  is_open = true;
  errmsg = [];
  cbrcv = true;
  cbsnd = true;
  crcrcv = (5120, codes "noise" ++ (frame 1 0x21 (codes "12.5") ++ codes ":"));
  crcsnd = (5120, []);
  reads = 1;
  writes = [];
}

abbrev control : List Directive → Controller list_buffer ℕ (CoolerData ℕ)
control ds = record {
  link = link;
  serial = some port;
  bufrcv = [];
  drct = ds;
  cbrslt = true;
  tmlast = 0;
  devices = reading 1 true ∷ reading 2 false ∷ [];
}

abbrev first : Directive
first = directive 1 0x21

abbrev second : Directive
second = directive 2 0x21

respond_all-Answered_example :
    Answered list_buffer (cooler counted 0) (second ∷ []) port (control (first ∷ second ∷ [])) (
      respond_all list_buffer
        (cooler counted 0)
        ((5, true) ∷ (6, true) ∷ [])
        (control (first ∷ second ∷ [])))
respond_all-Answered_example =
    respond_all-Answered list_buffer (cooler counted 0) first (second ∷ [])
      ((5, true) ∷ (6, true) ∷ []) port (control (first ∷ second ∷ [])) refl refl refl refl

abbrev stream : Bytes
stream = codes "noise" ++ (frame 1 0x21 (codes "12.5") ++ codes ":")

length-stream : length stream ≡ 23
length-stream =
    let text : Bytes = codes "12.5" in
    omega (
      arith,
      ap length (frame-body 1 0x21 text),
      length-append (body 1 0x21 text) (13 ∷ 10 ∷ []),
      length-body 1 0x21 text,
      length-append (frame 1 0x21 text) (codes ":"),
    )

whole : list_buffer.items port.crcrcv ≡ stream
whole = take-length 5120 stream (omega (arith, length-stream))

-- The reply 12.5 of device 1 to function 0x21, behind noise and in front of the next lead.
handle_frame-reply_example :
    let s' = (read list_buffer (pos (length (frame 1 0x21 (codes "12.5")))) (pos 5) port).1 in
    (handle_frame list_buffer (cooler counted 0) port (control (first ∷ []))
      ≡ some (
        record (control (first ∷ [])) {
          serial = some s';
          bufrcv = frame 1 0x21 (codes "12.5") ++ drop (length (frame 1 0x21 (codes "12.5"))) [];
          devices =
              update_device
                (numbered counted)
                1
                (store counted 0x21 (length (c_str (codes "12.5"))))
                (reading 1 true ∷ reading 2 false ∷ []);
        },
        true,
      ))
    × (list_buffer.items s'.crcrcv ≡ codes ":")
handle_frame-reply_example =
    handle_frame-reply list_buffer ℕ counted 0 1 0x21 49 (codes "2.5") (codes "noise") (codes ":")
      port (control (first ∷ [])) (omega arith) (omega arith)
      (omega arith, (omega arith, (omega arith, (omega arith, tt)))) (omega arith)
      (ground arith, (ground arith, (ground arith, (ground arith, (ground arith, tt))))) whole
