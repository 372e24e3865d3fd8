-- ===== src/Dashboard/Docs/Injected.antt =====
-- What the page of the documentation puts into its snippets.
use volq_auth.Base.{Option, none, some, String}
use volq_auth.Dashboard.Types.{Application}

pub record Credentials : Type 0 where
  pub app_id : String
  pub app_version : String
  pub master_pub_key : String

unfoldable pub credentials_of : Option Application → Credentials
credentials_of none = record {
  app_id = "YOUR_APPLICATION_UUID";
  app_version = "1.0.0";
  master_pub_key = "YOUR_MASTER_PUBLIC_KEY_BASE64";
}
credentials_of (some a) = record {
  app_id = a.id;
  app_version = a.version;
  master_pub_key = a.master_public_key;
}
