-- ===== src/Tests/Ledger.antt =====
-- The refinement of chaincode/contract.go at an update of an asset and its deletion.
use bc_abe.Common.{◌≡◌, refl, [], ◌∷◌}
use bc_abe.Text.{codes}
use bc_abe.Chaincode.Contract.{done, delete_ciphertext}
use bc_abe.Chaincode.Samples.{list_stub, list_stub-laws, without}
use bc_abe.Chaincode.Codec.{asset_codec, asset_codec-laws, write_asset}
use bc_abe.Chaincode.Refinement.{
  put_asset, delete_asset, replay, assets_of, History, start, then_committed, put_committed,
  delete_committed, assets_of-replay,
}
use bc_abe.Tests.Contracts.{
  no_params, no_ids, stored_first, stored_second, update, decoded, put_second,
}

deleted :
    delete_ciphertext list_stub no_params asset_codec no_ids (codes "1-demo.txt") stored_second
    ≡ done []
unfolding delete_ciphertext without
deleted = refl

updated_deleted :
    History list_stub no_params asset_codec no_ids stored_first []
      (put_asset update ∷ delete_asset (codes "1-demo.txt") ∷ [])
updated_deleted =
    then_committed (put_committed (write_asset update) update decoded put_second)
      (then_committed (delete_committed (codes "1-demo.txt") deleted) start)

assets_of-replay_example :
    assets_of list_stub no_params asset_codec no_ids []
    ≡ replay
        (put_asset update ∷ delete_asset (codes "1-demo.txt") ∷ [])
        (assets_of list_stub no_params asset_codec no_ids stored_first)
assets_of-replay_example =
    assets_of-replay list_stub no_params asset_codec no_ids list_stub-laws asset_codec-laws
      updated_deleted
