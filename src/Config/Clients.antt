-- ===== src/Config/Clients.antt =====
-- Every client constructor succeeds, and its requests go to the service's own address.
use huaweicloud_csi_driver.Prelude.{◌≡◌, refl, String, ◌<>◌}
use huaweicloud_csi_driver.Status.{ok}
use huaweicloud_csi_driver.Config.{
  CloudCredentials, ServiceClient, new_service_client, sfs_turbo_v1_client, sfs_v2_client,
  ecs_v1_client, ecs_v21_client, evs_v2_client, evs_v21_client, evs_v1_client,
}

-- The client of a service at a version, as its documentation gives the address.
abbrev pub client_at : CloudCredentials → String → String → ServiceClient
client_at cc service version =
    let host : String =
      "https://" <> (service <> ("." <> (cc.region <> ("." <> (cc.cloud <> "/"))))) in
    record {
      region = cc.region;
      project_id = cc.project_id;
      endpoint = host;
      resource_base = (host <> (version <> "/")) <> (cc.project_id <> "/");
    }

module _ (cc : CloudCredentials) where
  -- The seven client constructors never fail, whatever the credentials: each gives a client whose
  -- requests go to https://<service>.<region>.<cloud>/<version>/<project>/, signed for the region.
  pub clients-client_at :
      (sfs_turbo_v1_client cc ≡ ok (client_at cc "sfs-turbo" "v1"))
      × (sfs_v2_client cc ≡ ok (client_at cc "sfs" "v2"))
      × (ecs_v1_client cc ≡ ok (client_at cc "ecs" "v1"))
      × (ecs_v21_client cc ≡ ok (client_at cc "ecs" "v2.1"))
      × (evs_v2_client cc ≡ ok (client_at cc "evs" "v2"))
      × (evs_v21_client cc ≡ ok (client_at cc "evs" "v2.1"))
      × (evs_v1_client cc ≡ ok (client_at cc "evs" "v1"))
  unfolding new_service_client sfs_turbo_v1_client sfs_v2_client ecs_v1_client ecs_v21_client
      evs_v2_client evs_v21_client evs_v1_client
  clients-client_at = (refl, refl, refl, refl, refl, refl, refl)
