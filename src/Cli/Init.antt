-- ===== src/Cli/Init.antt =====
-- cli/src/init.js, from the list of services to the object that is written
use habs.Base.{
  ℕ, suc, String, not, Option, some, List, [], ◌∷◌, ◌==◌, split, if◌then◌else◌, Result, ok,
}
use habs.Cli.Services.{ServiceData, generate_services_template, result_bind}
use habs.Cli.Generate.{ConfigData}

abbrev thirteen_nulls : Option String
thirteen_nulls = some "null,null,null,null,null,null,null,null,null,null,null,null,null"

abbrev pub template_roles : String
template_roles =
    "operator,operator,operator,operator,operator,operator,operator,operator,operator,noservice,noservice,noservice,noservice"

-- The reduction over the roles
unfoldable pub count_service_nodes : List String → ℕ
count_service_nodes [] = 0
count_service_nodes (role ∷ roles) =
    let rest = count_service_nodes roles in if not (role == "noservice") then suc rest else rest

abbrev pub config_template : ℕ → List ServiceData → ConfigData
config_template service_nodes_number services = record {
  name = some "Archipel";
  public_ips =
      some
        "1.1.1.1,2.2.2.2,3.3.3.3,4.4.4.4,5.5.5.5,6.6.6.6,7.7.7.7,8.8.8.8,9.9.9.9,10.10.10.10,11.11.11.11,12.12.12.12,13.13.13.13";
  wireguard_ports =
      some "51820,51820,51820,51820,51820,51820,51820,51821,51821,51821,51822,51822,51822";
  nodes_role = some template_roles;
  nodes_group_id = some "1,1,1,2,2,2,3,3,3,99,99,99,99";
  nodes_group = some "A,A,A,B,B,B,C,C,C,0,0,0,0";
  alerts = record {
    nexmo_api_key = thirteen_nulls;
    nexmo_api_secret = thirteen_nulls;
    nexmo_api_signature_method = thirteen_nulls;
    nexmo_api_signature_secret = thirteen_nulls;
    nexmo_phone_number = thirteen_nulls;
    outlet_phone_number = thirteen_nulls;
  };
  service_nodes_number = service_nodes_number;
  services = some services;
}

unfoldable pub init_config : String → Result ConfigData
init_config services =
    let number = count_service_nodes (split 44 template_roles) in
    result_bind (generate_services_template services number)
      λ templates. ok (config_template number templates)
