-- ===== src/Binkp/Command/RoundTrip.antt =====
-- Commands in frames, there and back: `ftn_binkp_command_create`,
-- `ftn_binkp_command_to_frame` and `ftn_binkp_command_parse` of src/binkp/commands.c.
use lib_ftn.Common.{ℕ, suc, ◌+◌, ◌-◌, ◌%◌, ◌<◌, true, false, Option, none, some, List, [], ◌∷◌}
use lib_ftn.Common.{◌≡◌, refl, ap, arith, length, take_all, ◌==◌, inl, inr}
use lib_ftn.Binkp.Status.{Status, ok}
use lib_ftn.Binkp.Frame.{Frame, frame_create, copied, max_frame_size}
use lib_ftn.Binkp.Frame.Header.{IsWellFormed, frame_create_lem}
use lib_ftn.Binkp.Command.{CommandFrame, command_free, command_parse, command_create}
use lib_ftn.Binkp.Command.{command_to_frame, build, kept_args, text_length, parsed_command}

-- The command that its frame gives back.
abbrev pub restored : ℕ → Option (List ℕ) → CommandFrame
restored number text = record { cmd = number; args = kept_args text; args_len = text_length text }

parsed_made :
    (number : ℕ) (args : List ℕ) (c : CommandFrame)
    → parsed_command (suc (length args)) (number ∷ args) c ≡ restored number (some args)
parsed_made number [] c = refl
parsed_made number (a ∷ rest) c =
    let less : suc (suc (length rest)) - 1 ≡ suc (length rest) = omega arith in
    rw (less, take_all (length rest) rest (omega arith))

command_parse-made :
    (number : ℕ) (args : List ℕ) (g : Frame) (c : CommandFrame)
    → g.size ≡ suc (length args)
    → g.is_command ≡ true
    → g.payload ≡ copied (suc (length args)) (number ∷ args)
    → command_parse g c ≡ (ok, restored number (some args))
unfolding command_parse
command_parse-made number args g c sized flagged carried =
    let some_bytes : (suc (length args) == 0) ≡ false = ground arith in
    let whole = take_all (length args) args (omega arith) in
    rw (sized, flagged, carried, some_bytes, whole, whole)
      (ap {B = Status × CommandFrame} (λ (d : CommandFrame). (ok, d))
        (parsed_made number args (command_free c)))

command_to_frame-parsed :
    (number : ℕ) (args : List ℕ) (f : Frame) (c : CommandFrame)
    → number < 256
    → length args < max_frame_size
    → (g : Frame) × (frame_create f true (some ((number % 256) ∷ args)) (1 + length args) ≡ (ok, g))
      × IsWellFormed g
      × (command_parse g c ≡ (ok, restored number (some args)))
command_to_frame-parsed number args f c byte short =
    let same : number % 256 ≡ number = omega arith in
    let one : 1 + length args ≡ suc (length args) = omega arith in
    elim (frame_create_lem f true (number ∷ args) (suc (length args)) (omega arith)) [
      | inl (_, g, made, well, sized, flagged, carried) ↦
          rw (same, one) (g, made, well, command_parse-made number args g c sized flagged carried)
      | inr (long, _) ↦ absurd (omega arith)
    ]

-- The builders give, for a text of less than 32767 bytes, a well-formed frame in which
-- `ftn_binkp_command_parse` finds the command and the text again; an empty text comes back as none.
pub command_parse-build :
    (number : ℕ) (text : Option (List ℕ)) (f : Frame) (c : CommandFrame)
    → number < 256
    → text_length text < max_frame_size
    → (g : Frame) × (build number text f ≡ (ok, g))
      × IsWellFormed g
      × (command_parse g c ≡ (ok, restored number text))
unfolding build command_create command_to_frame
command_parse-build number none f c byte short = command_to_frame-parsed number [] f c byte short
command_parse-build number (some []) f c byte short =
    command_to_frame-parsed number [] f c byte short
command_parse-build number (some (b ∷ bs)) f c byte short =
    rw (take_all (length bs) bs (omega arith))
      (command_to_frame-parsed number (b ∷ bs) f c byte short)
