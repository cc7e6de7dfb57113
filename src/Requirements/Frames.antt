-- ===== src/Requirements/Frames.antt =====
-- Where the inheritance filter puts the frame pushed last.
use mathlib.Core.List.{append_assoc}
use cwl_go.Prelude.{
  ◌≡◌, refl, sym, ap, ◌∙◌, Option, none, some, List, [], ◌∷◌, ◌++◌, map, str_eq, if-elim,
}
use cwl_go.Requirements.Scope.{
  Frame, Target, target, target_or, filter_at, filter_frames, keep_frame,
}

-- A list of frames that ends with this one.
pub record EndsWith (f : Frame) (frames : List Frame) : Type 0 where
  pub front : List Frame
  pub whole : frames ≡ front ++ f ∷ []

EndsWith-append : (f : Frame) (xs ys : List Frame) → EndsWith f ys → EndsWith f (xs ++ ys)
EndsWith-append f xs ys e = record {
  front = xs ++ e.front;
  whole = ap (λ t. xs ++ t) e.whole ∙ sym (append_assoc xs e.front (f ∷ []));
}

abbrev TargetEnds : Frame → Option Target → Type 0
TargetEnds f none = Unit
TargetEnds f (some t) = EndsWith f (t.frame ∷ t.inner)

target_or-ends :
    (f g : Frame) (frames : List Frame) (o : Option Target)
    → TargetEnds f o
    → EndsWith f (g ∷ frames)
    → TargetEnds f (target_or g frames o)
target_or-ends f g frames (some t) h e = h
target_or-ends f g frames none h e =
    if-elim (TargetEnds f) (str_eq g.class "") none _ (λ _. tt) (λ _. e)

target-ends : (f : Frame) (frames : List Frame) → TargetEnds f (target (frames ++ f ∷ []))
unfolding target
target-ends f [] = target_or-ends f f [] none tt (record { front = []; whole = refl })
target-ends f (g ∷ frames) =
    target_or-ends f g (frames ++ f ∷ []) (target (frames ++ f ∷ [])) (target-ends f frames)
      (record { front = g ∷ frames; whole = refl })

filter_at-ends :
    (f : Frame) (frames : List Frame) (o : Option Target)
    → TargetEnds f o
    → EndsWith f frames
    → EndsWith f (filter_at frames o)
unfolding filter_at
filter_at-ends f frames none h e = e
filter_at-ends f frames (some t) h e =
    if-elim (EndsWith f) (str_eq t.frame.class "CommandLineTool") _ frames
      (λ _. EndsWith-append f (map keep_frame t.outer) (t.frame ∷ t.inner) h) (λ _. e)

-- The filter leaves the frame pushed last as it is.
pub filter_frames-ends :
    (f : Frame) (frames : List Frame) → EndsWith f (filter_frames (frames ++ f ∷ []))
unfolding filter_frames
filter_frames-ends f frames =
    filter_at-ends f (frames ++ f ∷ []) (target (frames ++ f ∷ [])) (target-ends f frames)
      (record { front = frames; whole = refl })

target-tool :
    (f : Frame) (frames : List Frame)
    → f.class ≡ "CommandLineTool"
    → target (frames ++ f ∷ []) ≡ some (record { outer = frames; frame = f; inner = [] })
unfolding target
target-tool f [] h = rw h refl
target-tool f (g ∷ frames) h = rw (target-tool f frames h) refl

-- Behind a command line tool, every outer frame is filtered.
pub filter_frames-tool :
    (f : Frame) (frames : List Frame)
    → f.class ≡ "CommandLineTool"
    → filter_frames (frames ++ f ∷ []) ≡ map keep_frame frames ++ f ∷ []
unfolding filter_frames filter_at
filter_frames-tool f frames h = rw (target-tool f frames h, h) refl
