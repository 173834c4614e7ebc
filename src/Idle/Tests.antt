-- ===== src/Idle/Tests.antt =====
-- A sweep over one entry that went idle and one that is read.
use maestro_llamacpp.Common.{true, false, List, [], ◌∷◌, arith}
use maestro_llamacpp.Common.Text.{codes}
use maestro_llamacpp.Catalog.{on_demand}
use maestro_llamacpp.Admission.Subject.{Loaded}
use maestro_llamacpp.Idle.{new_window}
use maestro_llamacpp.Idle.Expired.{Expires, expired_exact}

abbrev idle_and_read : List Loaded
idle_and_read =
    record {
      id = codes "read";
      cost_mib = 10;
      device_mib = 10;
      residency = on_demand;
      busy = true;
      last_used = 0;
    }
    ∷ record {
      id = codes "idle";
      cost_mib = 10;
      device_mib = 10;
      residency = on_demand;
      busy = false;
      last_used = 1000;
    }
    ∷ []

expired_exact_example : (es : List Loaded) × Expires (new_window 5000) 5000 9000 idle_and_read es
expired_exact_example =
    expired_exact 5000 9000 idle_and_read (omega arith) (omega arith, (omega arith, tt))
