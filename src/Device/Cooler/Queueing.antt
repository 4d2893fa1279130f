-- ===== src/Device/Cooler/Queueing.antt =====
-- What ControllerBase::Write queues for a cooler.
use camannex.Base.{ℕ, Bytes}
use camannex.Frame.Cooler.{encode_data}
use camannex.Controller.Virtual.{Directive}
use camannex.Controller.Line.{Controller}
use camannex.Device.Float.{Float}

-- The directive that a write of this text queues.
abbrev pub queued : (idd idf : ℕ) → Bytes → Directive
queued idd idf text =
    let (n, out) = encode_data idd idf text in record { idf = idf; len = n; msg = out }
