-- ===== src/Examples/Quads.antt =====
-- The four-motor drivers on small buffers.
use ecat_v2_master.Base.{◌≡◌, refl, true, false, [], ◌∷◌, ◌++◌, some, replicate, pos, negsuc, arith}
use ecat_v2_master.Io.Splice.{splice}
use ecat_v2_master.Task.Quad
use ecat_v2_master.Task.Quad.{Enabled, Commands, Reports, MotorReport, zero_report}
use ecat_v2_master.Task.Quad.Layout.{
  IsReport, commands_bytes, reports_bytes, all_masked, on_command-commands_bytes,
  read-reports_bytes,
}

abbrev pub first_and_third : Enabled
first_and_third = record { motor1 = true; motor2 = false; motor3 = true; motor4 = false }

abbrev pub four_commands : Commands
four_commands = record {
  motor1 = record { enable = 1; cmd = negsuc 499 };
  motor2 = record { enable = 1; cmd = pos 7 };
  motor3 = record { enable = 1; cmd = pos 300 };
  motor4 = record { enable = 0; cmd = pos 0 };
}

on_command-commands_bytes_example :
    Quad.on_command first_and_third 2 four_commands (replicate 16 0)
    ≡ some (splice 2 (commands_bytes first_and_third four_commands) (replicate 16 0))
on_command-commands_bytes_example =
    on_command-commands_bytes first_and_third 2 four_commands (replicate 16 0) (omega arith)

abbrev running_motor : MotorReport
running_motor = record {
  online = 1;
  ecd = 4095;
  rpm = negsuc 99;
  current = pos 20;
  aux = 31;
  error_code = 0;
}

abbrev four_reports : Reports
four_reports = record {
  stamp = 5;
  motor1 = running_motor;
  motor2 = zero_report;
  motor3 = running_motor;
  motor4 = zero_report;
}

read-reports_bytes_example :
    Quad.read first_and_third 1 5 (3 ∷ (reports_bytes first_and_third four_reports ++ (8 ∷ [])))
    ≡ some (all_masked first_and_third four_reports)
read-reports_bytes_example =
    read-reports_bytes first_and_third four_reports 1
      (3 ∷ (reports_bytes first_and_third four_reports ++ (8 ∷ []))) (8 ∷ [])
      (record {
        motor1 = running_fits;
        motor2 = zero_fits;
        motor3 = running_fits;
        motor4 = zero_fits;
      })
      refl
  where
    running_fits : IsReport running_motor
    running_fits = record {
      ecd_fits = omega arith;
      rpm_fits = omega arith;
      current_fits = omega arith;
    }

    zero_fits : IsReport zero_report
    zero_fits = record {
      ecd_fits = omega arith;
      rpm_fits = omega arith;
      current_fits = omega arith;
    }
