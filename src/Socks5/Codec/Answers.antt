-- ===== src/Socks5/Codec/Answers.antt =====
-- The answers that a decoder may give: the contract that the three codecs share.
use zc_splice_proxy.Base.{Bool, false, if◌then◌else◌, panics, refl, subst, true, ◌≡◌, ◌≢◌}
use zc_splice_proxy.Std.Utf8.{Bytes}
use zc_splice_proxy.Socks5.Error.{ProtocolError}
use zc_splice_proxy.Socks5.Codec.Buffer.{Decoded, incomplete, reject, frame}

-- It waits for more bytes or reports a protocol error, both with the buffer untouched, or it reads
-- an item off the front of the buffer, as `Whole item rest` says. It never panics.
pub data Answers {Item : Type 0} (Whole : Item → Bytes → Type 0) (buf : Bytes)
    : Decoded Item → Type 0 where
  waits : Answers Whole buf (incomplete buf)
  refuses : (e : ProtocolError) → Answers Whole buf (reject e buf)
  reads : {item : Item} {rest : Bytes} → Whole item rest → Answers Whole buf (frame item rest)

-- The two kinds of test that a codec makes, as calls that a proof can take apart.
module _ {Item : Type 0} where
  unfoldable pub refuse_if : Bool → ProtocolError → Bytes → Decoded Item → Decoded Item
  refuse_if test e buf more = if test then reject e buf else more

  unfoldable pub wait_if : Bool → Bytes → Decoded Item → Decoded Item
  wait_if test buf more = if test then incomplete buf else more

module _ {Item : Type 0} {Whole : Item → Bytes → Type 0} {buf : Bytes} where
  pub Answers-refuse_if :
      {test : Bool} (e : ProtocolError) {more : Decoded Item}
      → (test ≡ false → Answers Whole buf more)
      → Answers Whole buf (refuse_if test e buf more)
  unfolding refuse_if
  Answers-refuse_if {test = true} e h = refuses e
  Answers-refuse_if {test = false} e h = h refl

  pub Answers-wait_if :
      {test : Bool} {more : Decoded Item}
      → (test ≡ false → Answers Whole buf more)
      → Answers Whole buf (wait_if test buf more)
  unfolding wait_if
  Answers-wait_if {test = true} h = waits
  Answers-wait_if {test = false} h = h refl

  pub Answers-frame :
      {r : Decoded Item} {item : Item} {rest : Bytes}
      → Answers Whole buf r
      → r ≡ frame item rest
      → Whole item rest
  Answers-frame waits e = cc
  Answers-frame (refuses x) e = cc
  Answers-frame {item = item} {rest = rest} (reads {item = i} {rest = s} w) e =
      subst (Whole item) (cc) (subst (λ j. Whole j s) (cc) w)

  pub Answers-ne-panics : {r : Decoded Item} → Answers Whole buf r → r ≢ panics
  Answers-ne-panics waits e = cc
  Answers-ne-panics (refuses x) e = cc
  Answers-ne-panics (reads w) e = cc
