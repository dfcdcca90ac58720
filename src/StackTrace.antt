-- ===== src/StackTrace.antt =====
-- `getStackTrace` of pkg/utils/assert.go, and what `Assert` logs. `format` is `%d` of a line's number.
use tax_bro.Prelude.{
  ℕ, arith, ◌≡◌, refl, Bool, true, false, List, [], ◌∷◌, ◌++◌, append-nil, flat_map, length, nat_eq,
  ◌∙◌, append_assoc, ◌↔◌, if◌then◌else◌, ok, assert, Option, none, some, take,
}
use tax_bro.Text.{Bytes, codes}

-- runtime.Frame
pub record Frame : Type 0 where
  pub function : Bytes
  pub file : Bytes
  pub line : ℕ

module _ (format : ℕ → Bytes) where
  -- `fmt.Fprintf(&stackTrace, "%s\n\tat %s:%d\n", …)`
  abbrev pub print_frame : Frame → Bytes
  print_frame frame =
      frame.function
      ++ (codes "\n\tat " ++ (frame.file ++ (codes ":" ++ (format frame.line ++ codes "\n"))))

  -- The loop. `frames.Next()` gives a frame and whether there are more, and the zero frame when there
  -- is none at all.
  unfoldable pub print_frames : List Frame → Bytes → Bytes
  print_frames [] printed = printed ++ print_frame (record { function = []; file = []; line = 0 })
  print_frames (frame ∷ []) printed = printed ++ print_frame frame
  print_frames (frame ∷ next ∷ frames) printed =
      print_frames (next ∷ frames) (printed ++ print_frame frame)

  -- `callers` are the program counters behind `getStackTrace` itself, of which the first ten are taken, and
  -- `frames_of` is `runtime.CallersFrames`.
  unfoldable pub get_stack_trace : (callers : List ℕ) → (frames_of : List ℕ → List Frame) → Bytes
  unfolding print_frames
  get_stack_trace callers frames_of =
      let pc = take 10 callers in
      if nat_eq (length pc) 0
      then codes "Unable to retrieve stack trace"
      else print_frames (frames_of pc) []

  -- What `Assert` logs before it ends the process.
  unfoldable pub logged_by : Bool → Bytes → List ℕ → (List ℕ → List Frame) → Option Bytes
  unfolding get_stack_trace
  logged_by true msg callers frames_of = none
  logged_by false msg callers frames_of = some (
      codes "Assertion failed: "
      ++ (msg ++ (codes "\nStack trace: " ++ (get_stack_trace callers frames_of ++ codes "\n"))))

  -- The loop prints each frame once, in their order.
  print_frames_all :
      (frame : Frame) (frames : List Frame) (printed : Bytes)
      → print_frames (frame ∷ frames) printed ≡ printed ++ flat_map print_frame (frame ∷ frames)
  unfolding print_frames
  print_frames_all frame [] printed = rw append-nil
  print_frames_all frame (next ∷ frames) printed =
      print_frames_all next frames (printed ++ print_frame frame)
      ∙ append_assoc printed (print_frame frame) (flat_map print_frame (next ∷ frames))

  -- The trace of a goroutine with frames is the text of each of them.
  pub get_stack_trace_lem :
      (c : ℕ) (callers : List ℕ) (frames_of : List ℕ → List Frame) (frame : Frame)
      (frames : List Frame)
      → frames_of (take 10 (c ∷ callers)) ≡ frame ∷ frames
      → get_stack_trace (c ∷ callers) frames_of ≡ flat_map print_frame (frame ∷ frames)
  unfolding get_stack_trace
  get_stack_trace_lem c callers frames_of frame frames e =
      let some_callers : nat_eq (length (take 10 (c ∷ callers))) 0 ≡ false = ground arith in
      rw (some_callers, e) (print_frames_all frame frames [])

  -- It logs exactly when it ends the process.
  pub logged_by-assert :
      (cond : Bool) (msg : Bytes) (callers : List ℕ) (frames_of : List ℕ → List Frame)
      → (logged_by cond msg callers frames_of ≡ none) ↔ (assert cond ≡ ok tt)
  unfolding logged_by
  logged_by-assert true msg callers frames_of = (λ e. refl, λ e. refl)
  logged_by-assert false msg callers frames_of = (λ e. cc, λ e. cc)
