-- ===== src/Daemon/Tests.antt =====
-- Runs of the daemon's launch.
use camannex.Base.Int.{pos}
use camannex.Base.{
  ℕ, ◌≡◌, refl, [], ◌∷◌, codes, eq_bytes, Bool, true, false, Option, none, some, inl,
}
use camannex.Base.Text.{decimal, digits}
use camannex.Daemon.{PidFile, is_proc_singleton, make_it_daemon}
use camannex.Daemon.Exclusion.{
  System, Reach, here, launches, leaves, IsExclusive, Reach-IsExclusive,
}
use camannex.MessageQueue.Queue.{list_queue}
use camannex.MessageQueue.{MsgUnit, init, register_message}
use camannex.MessageQueue
use camannex.Annex.Messages.{MsgAc, register_messages, msg_id}
use camannex.Annex.Network.{connect_server, connect_coolers}
use camannex.Annex.Service.{Service, start_service, stop_service}
use camannex.Daemon.Start.{
  Machine, Ended, run_main, daemon_mode, serve, pid_path, IsLaunched, run_main-IsLaunched,
}

-- The answers to a process of a number of four digits that gets the lock.
abbrev granted : PidFile
granted = record {
  opened = some 3;
  locked = true;
  truncated = true;
  written = some 5;
  flags = some 0;
  kept = true;
}

abbrev at_boot : System
at_boot = record { holder = none; running = []; file = codes "812\n" }

-- 4711 goes on, 4712 is refused, 4711 ends, 4713 goes on.
abbrev later : System
later = record { holder = some 4713; running = 4713 ∷ []; file = codes "4713\n" }

later-Reach : Reach pid_path at_boot later
unfolding is_proc_singleton decimal digits
later-Reach =
    launches
      (leaves
        (launches (launches here 4711 granted refl) 4712 (record granted { locked = false }) refl)
        4711)
      4713 granted refl

Reach-IsExclusive_example : IsExclusive later
Reach-IsExclusive_example = Reach-IsExclusive pid_path (inl refl) later-Reach

abbrev service : Service ℕ (list_queue MsgUnit)
service = record {
  queue = init MsgAc (list_queue MsgUnit);
  network = record {
    b_server = true;
    groupid = codes "001";
    url_db = [];
    cooler = [];
    vacuum = [];
    cctl = [];
    vctl = [];
    tcp = none;
    monitor = false;
    next = 0;
  };
}

abbrev started : Service ℕ (list_queue MsgUnit) × Bool
started =
    start_service ℕ (list_queue MsgUnit) (some (1024, [])) 8 true eq_bytes (λ name. true) service

abbrev child : Machine
child = record {
  first = some 0;
  second = some 0;
  null_opens = true;
  pid = 4711;
  pid_file = granted;
}

abbrev stopped : Option (Ended ℕ (list_queue MsgUnit))
stopped = run_main ℕ (list_queue MsgUnit) (pos 0) [] child 1 (λ s. s) started

stops : (e : Ended ℕ (list_queue MsgUnit)) × (stopped ≡ some e) × (e.ran ≡ true)
unfolding run_main daemon_mode make_it_daemon is_proc_singleton decimal digits serve start_service
    connect_server connect_coolers MessageQueue.start init register_messages
    MessageQueue.register_message msg_id stop_service MessageQueue.stop MessageQueue.send_message
    MessageQueue.join MessageQueue.thread_round
stops = (_, refl, refl)

run_main-IsLaunched_example : IsLaunched ℕ (list_queue MsgUnit) [] child started.1
run_main-IsLaunched_example =
    run_main-IsLaunched ℕ (list_queue MsgUnit) (pos 0) [] child 1 (λ s. s) started stops.1 stops.2
