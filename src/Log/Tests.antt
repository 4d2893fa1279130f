-- ===== src/Log/Tests.antt =====
-- A line that opens the file of its day.
use camannex.Base.{true}
use camannex.Log.{Date, Disk}

abbrev today : Date
today = record { month = 24213; day = 17 }

abbrev disk : Disk
disk = record { writable = true; opens = true }
