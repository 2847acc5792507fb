-- ===== src/Binkp/Command/Tests.antt =====
-- Runs of the theorems on commands.
use lib_ftn.Common.{ℕ, ◌<◌, some, List, All, length, codes, ◌≡◌, arith}
use lib_ftn.Common.Text.{decimal, decimal_loop}
use lib_ftn.Binkp.Status.{ok}
use lib_ftn.Binkp.Frame.{Frame, frame_init}
use lib_ftn.Binkp.Frame.Header.{IsWellFormed}
use lib_ftn.Binkp.Command.{command_init, build, command_parse, m_pwd}
use lib_ftn.Binkp.Command.Escape.{escape_filename, unescape_filename, IsGraphic}
use lib_ftn.Binkp.Command.Escape.{escape_filename-IsGraphic, unescape_filename-escape_filename}
use lib_ftn.Binkp.Command.RoundTrip.{restored, command_parse-build}
use lib_ftn.Binkp.Command.Args.{
  FileInfo, offset_text, create_m_got, create_m_get, create_m_skip, parse_m_got,
}
use lib_ftn.Binkp.Command.Args.{parse_m_get, parse_m_skip, file_text, create_m_file, parse_m_file}
use lib_ftn.Binkp.Command.Args.Offsets.{IsName, create_m_got-parse_m_got}
use lib_ftn.Binkp.Command.Args.Files.{IsInfo, create_m_file-parse_m_file}

-- A name with a space, which is escaped.
abbrev name : List ℕ
name = codes "a b.pkt"

name-IsName : IsName name
name-IsName = ground arith

abbrev info : FileInfo
info = record { filename = name; file_size = 120; timestamp = 75; offset = 20 }

info-IsInfo : IsInfo info
info-IsInfo = record {
  name = name-IsName;
  size_fits = omega arith;
  stamp_fits = omega arith;
  offset_fits = omega arith;
}

unescape_filename-escape_filename_example : unescape_filename (escape_filename name) ≡ name
unescape_filename-escape_filename_example = unescape_filename-escape_filename name name-IsName

escape_filename-IsGraphic_example : All IsGraphic (escape_filename name)
escape_filename-IsGraphic_example = escape_filename-IsGraphic name name-IsName

command_parse-build_example :
    (g : Frame) × (build m_pwd (some (codes "secret")) frame_init ≡ (ok, g))
    × IsWellFormed g
    × (command_parse g command_init ≡ (ok, restored m_pwd (some (codes "secret"))))
command_parse-build_example =
    command_parse-build m_pwd (some (codes "secret")) frame_init command_init (omega arith)
      (omega arith)

short_offset : length (offset_text name 42) < 512
unfolding offset_text escape_filename decimal decimal_loop
short_offset = omega arith

short_file : length (file_text info) < 1024
unfolding file_text escape_filename decimal decimal_loop
short_file = omega arith

create_m_got-parse_m_got_example :
    ((g : Frame) × (create_m_got frame_init name 42 ≡ (ok, g))
      × IsWellFormed g
      × (parse_m_got (command_parse g command_init).1 ≡ some (name, 42)))
    × ((g : Frame) × (create_m_get frame_init name 42 ≡ (ok, g))
        × IsWellFormed g
        × (parse_m_get (command_parse g command_init).1 ≡ some (name, 42)))
    × ((g : Frame) × (create_m_skip frame_init name 42 ≡ (ok, g))
        × IsWellFormed g
        × (parse_m_skip (command_parse g command_init).1 ≡ some (name, 42)))
create_m_got-parse_m_got_example =
    create_m_got-parse_m_got name 42 frame_init command_init name-IsName (omega arith) short_offset

create_m_file-parse_m_file_example :
    (g : Frame) × (create_m_file frame_init info ≡ (ok, g))
    × IsWellFormed g
    × (parse_m_file (command_parse g command_init).1 ≡ some info)
create_m_file-parse_m_file_example =
    create_m_file-parse_m_file info frame_init command_init info-IsInfo short_file
