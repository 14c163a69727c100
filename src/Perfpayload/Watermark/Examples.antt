-- ===== src/Perfpayload/Watermark/Examples.antt =====
-- The theorems on the watermarks at a concrete payload.
use forward_go_sdk.Prelude.{
  ◌+◌, ◌≡◌, refl, false, none, some, List, [], ◌∷◌, All, length, if◌then◌else◌,
}
use forward_go_sdk.Text.{codes, text_eq}
use forward_go_sdk.Perfpayload.Watermark.{
  Entry, Watermarks, refused_unclaimed, sent, refused, advance,
}
use forward_go_sdk.Perfpayload.Watermark.Laws.{MaySend, sent-advance, sent-All-MaySend}

-- A device "a" of someone else, with a sample at 5.
abbrev marks : Watermarks
marks = record {
  newest = λ name. if text_eq name (codes "a") then some 5 else none;
  claimed = λ name. false;
}

abbrev entries : List Entry
entries =
    record { device_name = codes "a"; time = 9 } ∷ record { device_name = codes "b"; time = 3 } ∷ []

first_refused :
    refused marks entries ≡ record { device = codes "a"; time = 9; reason = refused_unclaimed } ∷ []
unfolding refused text_eq
first_refused = refl

sent-advance_example : sent (advance marks entries) entries ≡ []
sent-advance_example = sent-advance marks entries

sent-All-MaySend_example :
    All (MaySend marks) (sent marks entries)
    × (length (sent marks entries) + length (refused marks entries) ≡ 2)
sent-All-MaySend_example = sent-All-MaySend marks entries

newest_a : marks.newest (codes "a") ≡ some 5
unfolding text_eq
newest_a = refl
