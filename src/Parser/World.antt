-- ===== src/Parser/World.antt =====
-- What the parser of caddyfile/parse.go asks of the operating system: environment variables, paths
-- and files. They are functions, so they answer alike during one parse.
use iotacaddy.Prelude.{Bool, Option, List, Text}
use iotacaddy.Lexer.Defs.{Reader}

-- `os.Open` with `file.Stat`: no file, a directory, or contents.
pub data File : Type 0 where
  missing : File
  directory : File
  contents : Reader → File

pub record World : Type 0 where
  -- os.Getenv
  pub getenv : Text → Text
  -- filepath.Abs
  pub abs : Text → Option Text
  -- filepath.IsAbs
  pub is_abs : Text → Bool
  -- filepath.Join(filepath.Dir(file), pattern)
  pub relative : Text → Text → Text
  -- filepath.Glob
  pub glob : Text → Option (List Text)
  pub open_file : Text → File
