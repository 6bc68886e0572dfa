-- ===== src/Http/Response/Frames.antt =====
-- The frames that hyper polls out of a body.
use hyper_ruby.Common.{
  ℕ, zero, suc, true, false, [], ◌∷◌, ◌++◌, List, Option, none, some, ◌≡◌, refl, ap, Bytes,
}
use hyper_ruby.Http.Text.{HeaderMap}
use hyper_ruby.Http.Response.{BodyWithTrailers, new_body, Frame, payload, trailer, poll_frame}

abbrev push_frame : Option Frame × BodyWithTrailers → (BodyWithTrailers → List Frame) → List Frame
push_frame (some frame, b) more = frame ∷ more b
push_frame (none, b) more = more b

-- The frames of the first `n` polls, also of those after the end.
pub frames : ℕ → BodyWithTrailers → List Frame
frames zero b = []
frames (suc n) b = push_frame (poll_frame b) (frames n)

abbrev pub data_frames : Bytes → List Frame
data_frames [] = []
data_frames (b ∷ bs) = payload (b ∷ bs) ∷ []

abbrev pub trailer_frames : Option HeaderMap → List Frame
trailer_frames none = []
trailer_frames (some t) = trailer t ∷ []

frames_ended :
    (n : ℕ) (content : Bytes) (t : Option HeaderMap)
    → frames n (record { content = content; data_sent = true; trailers_sent = true; trailers = t })
      ≡ []
unfolding frames poll_frame
frames_ended zero content t = refl
frames_ended (suc n) content t = frames_ended n content t

frames_nil_ended :
    (n : ℕ) (t : Option HeaderMap)
    → frames n (record { content = []; data_sent = false; trailers_sent = true; trailers = t }) ≡ []
unfolding frames poll_frame
frames_nil_ended zero t = refl
frames_nil_ended (suc n) t = frames_nil_ended n t

-- Polled twice or more often, a body gives its data in one frame, unless it is empty, then its
-- trailers, if it has any, and then nothing more.
pub frames-new_body :
    (n : ℕ) (content : Bytes) (t : Option HeaderMap)
    → frames (suc (suc n)) (new_body content t) ≡ data_frames content ++ trailer_frames t
unfolding frames poll_frame new_body
frames-new_body n [] none = frames_nil_ended (suc n) none
frames-new_body n [] (some t) = ap (◌∷◌ (trailer t)) (frames_nil_ended n (some t))
frames-new_body n (b ∷ bs) none = ap (◌∷◌ (payload (b ∷ bs))) (frames_ended n (b ∷ bs) none)
frames-new_body n (b ∷ bs) (some t) =
    ap (λ fs. payload (b ∷ bs) ∷ trailer t ∷ fs) (frames_ended n (b ∷ bs) (some t))
