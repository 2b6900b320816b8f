-- ===== src/ConfigReader/Runs.antt =====
-- A line of a configuration file: `  port  = 80 90 `.
use talon_rpc.Prelude.{◌≡◌, [], ◌++◌, arith}
use talon_rpc.Prelude.Text.{codes}
use talon_rpc.Prelude.Dict.{assign}
use talon_rpc.ConfigReader.{parse_line}
use talon_rpc.ConfigReader.Laws.{spaces, entry, IsKey, parse_line-entry}

port_IsKey : IsKey (codes "port")
port_IsKey = record {
  starts = omega arith;
  ends = omega arith;
  no_equals = (omega arith, (omega arith, (omega arith, (omega arith, tt))));
  no_comment = omega arith;
}

parse_line-entry_example :
    parse_line (spaces 2 ++ (entry (codes "port") (codes "80 90") 2 1 ++ spaces 1)) []
    ≡ assign (codes "port") (codes "80 90") []
parse_line-entry_example =
    parse_line-entry 2 2 1 1 (codes "port") (codes "80 90") [] port_IsKey (omega arith)
      (omega arith) (omega arith)
