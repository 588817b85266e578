-- ===== src/Config/Tests.antt =====
-- A test of the clients.
use huaweicloud_csi_driver.Prelude.{◌≡◌, refl}
use huaweicloud_csi_driver.Config.{CloudCredentials}
use huaweicloud_csi_driver.Config.Clients.{client_at}

abbrev credentials : CloudCredentials
credentials = record {
  cloud = "myhuaweicloud.com";
  region = "cn-north-4";
  project_id = "0f1e";
  vpc_id = "";
  subnet_id = "";
  security_group_id = "";
}

ecs_address :
    (client_at credentials "ecs" "v2.1").resource_base
    ≡ "https://ecs.cn-north-4.myhuaweicloud.com/v2.1/0f1e/"
ecs_address = refl
