-- ===== src/Annex/Tests.antt =====
-- Runs of AnnexControl's handlers with two coolers and a vacuum gauge.
use camannex.Base.{
  if◌then◌else◌, ℕ, ◌≡◌, refl, [], ◌∷◌, Bytes, eq_bytes, codes, true, false, Option, some, none,
  arith,
}
use camannex.Base.Int.{pos}
use camannex.MessageQueue.Queue.{list_queue}
use camannex.MessageQueue.{MsgUnit, MessageQueue, init, thread_round}
use camannex.Annex.Messages.{
  MsgAc, msg_id, register_messages, Callback, called_back, network_connect,
}
use camannex.Annex.Messages.Lost.{callback_calls_nobody}
use camannex.Config.{Annex}
use camannex.Annex.Network.{Port, Network, connect_server, connect_coolers}
use camannex.MessageQueue
use camannex.Annex.Service.{Service, start_service, start_service-Covers}
use camannex.Annex.Network.Ports.{Covers}

abbrev queue : MessageQueue MsgAc (list_queue MsgUnit)
queue = record (init MsgAc (list_queue MsgUnit)) {
  mq = some (1024, []);
  thrdmsg = true;
  running = true;
}

abbrev connected : Callback (list_queue MsgUnit)
connected = network_connect (pos 1) (pos 0)

callback_calls_nobody_example :
    (s1 s2 : MessageQueue MsgAc (list_queue MsgUnit)) × (msg : MsgUnit) × (called_back
        (list_queue MsgUnit)
        connected
        queue
      ≡ some s1)
    × (thread_round MsgAc (list_queue MsgUnit) s1 ≡ some (record { msg = msg; slots = [] }, s2))
    × (s2.running ≡ false)
    × (s2.funcs ≡ queue.funcs)
callback_calls_nobody_example =
    callback_calls_nobody (list_queue MsgUnit) connected (1024, []) queue refl refl (omega arith)

abbrev cooler_on : ℕ → Bytes → Option ℕ → Port ℕ
cooler_on key name tcp = record {
  key = key;
  link = record { portname = name; grpid = codes "001"; all_dev = 1 ∷ []; tcp = tcp; db = none };
}

abbrev on_port : Bytes → ℕ → Annex
on_port name d = record { port_name = name; baud_rate = pos 9600; n = pos 1; idd = d ∷ [] }

abbrev network : Network ℕ
network = record {
  b_server = true;
  groupid = codes "001";
  url_db = [];
  cooler = on_port (codes "com1") 1 ∷ on_port (codes "com2") 2 ∷ [];
  vacuum = [];
  cctl = cooler_on 1 (codes "com1") (some 7) ∷ [];
  vctl = cooler_on 2 (codes "com3") none ∷ [];
  tcp = some 7;
  monitor = false;
  next = 3;
}

eq_bytes_refl : (name : Bytes) → eq_bytes name name ≡ true
eq_bytes_refl [] = refl
eq_bytes_refl (c ∷ cs) = ground (arith, eq_bytes_refl cs)

abbrev service : Service ℕ (list_queue MsgUnit)
service = record { queue = init MsgAc (list_queue MsgUnit); network = record network { cctl = [] } }

abbrev served_after : Service ℕ (list_queue MsgUnit)
served_after =
    (start_service ℕ (list_queue MsgUnit) (some (1024, [])) 8 true eq_bytes (λ name. true)
      service).0

start_service-Covers_example :
    let n1 = (connect_server 8 false true service.network).0 in
    (served_after.queue.thrdmsg ≡ true)
    × Covers eq_bytes n1.cooler n1 served_after.network
    × (n1.tcp ≡ (if service.network.b_server then some 8 else service.network.tcp))
unfolding start_service connect_server connect_coolers MessageQueue.start init register_messages
    MessageQueue.register_message msg_id
start_service-Covers_example =
    start_service-Covers ℕ (list_queue MsgUnit) (some (1024, [])) 8 true eq_bytes (λ name. true)
      service eq_bytes_refl refl
