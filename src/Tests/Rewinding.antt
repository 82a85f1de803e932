-- ===== src/Tests/Rewinding.antt =====
-- Decisions about a rewind at concrete inputs.
use pennsignals_postgres.Postgresql.Lsn.{hex_value, read_hex, parse_hex, parse_lsn}
use pennsignals_postgres.Base.Text.{lstrip, rstrip, strip, split_at}
use pennsignals_postgres.Base.{true, false, some, ◌≡◌, refl, arith}
use pennsignals_postgres.Postgresql.Timelines.{is_beyond, Local, parse_history, need_rewind}
use pennsignals_postgres.Postgresql.Rewind.{Master, becomes, not_need, check_timeline_and_lsn}
use pennsignals_postgres.Postgresql.Rewind.Decision.{
  IsHarmless, check_timeline_and_lsn-IsHarmless, check_timeline_and_lsn-absent,
}

-- A replica on the second timeline, and a master on the fourth, which came from the second.
abbrev replica : Local
replica = record { in_recovery = true; timeline = 2; lsn = 50; checkpoint_end = 0 }

abbrev fourth : Master
fourth = record {
  identify_system = some 4;
  timeline_history =
      λ t. some "1\t0/20\tno recovery target specified\n2\t0/40\tno recovery target specified";
}

harmless : check_timeline_and_lsn (some replica) true fourth ≡ becomes not_need
unfolding check_timeline_and_lsn parse_history split_at strip rstrip lstrip parse_lsn parse_hex
    read_hex hex_value need_rewind is_beyond
harmless = refl

check_timeline_and_lsn-IsHarmless_example : IsHarmless replica fourth
check_timeline_and_lsn-IsHarmless_example =
    check_timeline_and_lsn-IsHarmless replica true fourth harmless

-- A replica on the third timeline, which is no ancestor of the fourth.
abbrev stray : Local
stray = record { in_recovery = true; timeline = 3; lsn = 1000; checkpoint_end = 0 }

check_timeline_and_lsn-absent_example :
    check_timeline_and_lsn (some stray) true fourth ≡ becomes not_need
unfolding parse_history split_at strip rstrip lstrip parse_lsn parse_hex read_hex hex_value
check_timeline_and_lsn-absent_example =
    check_timeline_and_lsn-absent stray fourth 4
      "1\t0/20\tno recovery target specified\n2\t0/40\tno recovery target specified" refl refl
      (omega arith) refl ((λ e. omega arith), ((λ e. omega arith), tt))

-- A former primary of the second timeline, shut down after the switch.
abbrev gone_on : Local
gone_on = record { in_recovery = false; timeline = 2; lsn = 50; checkpoint_end = 70 }

test_gone_on : is_beyond gone_on 64 ≡ true
unfolding is_beyond
test_gone_on = refl
