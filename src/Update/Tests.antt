-- ===== src/Update/Tests.antt =====
-- An update of the bench's node with an image of three bytes.
use klippylink.Common.{refl, some, [], ◌∷◌, arith}
use klippylink.Bench.{board, node}
use klippylink.Node.OtaTests.{flash, laws}
use klippylink.Router.OtaPush.{ota_push_to_node}
use klippylink.Update.{Works, deliver}
use klippylink.Update.Whole.{Updated, ota_push_to_node-Updated}

works : Works flash laws
works = record {
  partition = λ d. (2, refl);
  begins = λ d part h. refl;
  writes = λ d h bytes. refl;
  finishes = λ d h. refl;
  boots = λ d part. refl;
  next_start = λ d. d.2;
  boot_chooses = λ d part. refl;
  memory = λ d. refl;
  finish_keeps = λ d h part. refl;
  boot_keeps = λ d p part. refl;
}

ota_push_to_node-Updated_example :
    Updated board laws works
      (7 ∷ 8 ∷ 9 ∷ [])
      (ota_push_to_node flash.crc (deliver board) (some (7 ∷ 8 ∷ 9 ∷ [])) node)
ota_push_to_node-Updated_example =
    ota_push_to_node-Updated board laws works (7 ∷ 8 ∷ 9 ∷ []) node (omega arith) (omega arith)
      (omega arith) (omega arith)
